-- ===== src/System/Addresses/Static.antt =====
-- The addresses of a link after one was ensured without an error.
use jack.Base.{String, ◌==◌, ◌≡◌, true, false, ◌||◌, none, List}
use jack.Base.Lists.{mem}
use jack.Base.Outcome.{ok}
use jack.System.Members.{Kernel}

-- A call of netlink that returns no error did what it says: an address that is deleted is gone, and
-- the kernel may delete others with it, those that are secondary to it; one that is added is there,
-- and no other is lost.
pub record IsHonest (kernel : Kernel) : Type 0 where
  pub present : kernel.World → List String
  pub listed : (w : kernel.World) → kernel.addresses w ≡ ok (present w)
  pub deleted :
      (x a : String) (w : kernel.World)
      → (kernel.addr_del a w).0 ≡ none
      → mem x (present (kernel.addr_del a w).1) ≡ true
      → (a == x ≡ false) × (mem x (present w) ≡ true)
  pub added :
      (x a : String) (w : kernel.World)
      → (kernel.addr_add a w).0 ≡ none
      → mem x (present (kernel.addr_add a w).1) ≡ (a == x || mem x (present w))
