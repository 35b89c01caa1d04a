-- ===== src/System/Members/Exact.antt =====
-- Afterwards there is exactly what is wanted.
use jack.Base.{String, ◌==◌, ◌≡◌, true, false, ◌||◌, List, ap, eq_iff}
use jack.Base.Lists.{mem}
use jack.Base.Outcome.{ok}
use jack.System.Members.{Kernel}

-- A test at equal texts.
pub mem-cong : (a x : String) (xs : List String) → a == x ≡ true → mem a xs ≡ mem x xs
mem-cong a x xs e = ap (λ y. mem y xs) ((eq_iff a x).0 e)

-- The calls of netlink that change something succeed: an address that is deleted is gone, and the
-- kernel may delete others with it, those that are secondary to it; one that is added is there, and
-- no other is lost. The addresses that a snapshot holds parse.
pub record IsReliable (kernel : Kernel) (wanted : List String) : Type 0 where
  pub present : kernel.World → List String
  pub listed : (w : kernel.World) → kernel.addresses w ≡ ok (present w)
  pub deleted :
      (x a : String) (w : kernel.World)
      → mem x (present (kernel.addr_del a w).1) ≡ true
      → (a == x ≡ false) × (mem x (present w) ≡ true)
  pub added :
      (x a : String) (w : kernel.World)
      → mem x (present (kernel.addr_add a w).1) ≡ (a == x || mem x (present w))
  pub parsed : (a : String) → mem a wanted ≡ true → kernel.parses a ≡ true
