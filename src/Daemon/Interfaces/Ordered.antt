-- ===== src/Daemon/Interfaces/Ordered.antt =====
-- The order holds every interface, the lower layers first.
use jack.Base.{
  ℕ, String, ◌==◌, ◌≡◌, refl, Bool, true, false, ◌&&◌, ◌||◌, Option, none, some, List, [], ◌∷◌,
  ◌++◌, is_some, eqb, arith, eq_iff, if◌then◌else◌,
}
use jack.Base.Lists.{mem, mem-append}
use jack.Base.Maps.{Map, lookup, has, Distinct}
use jack.Types.Network.{Interface}
use jack.Daemon.Interfaces.{Groups, add_interface, group_interfaces, order_interfaces}

-- The layer of a type: physical interfaces, then bridges, then VLANs, then all others.
abbrev pub layer : String → ℕ
layer type =
    if type == "physical"
    then 0
    else if type == "bridge"
    then 1
    else if type == "vlan"
    then 2
    else 3

-- The interface is there, with a type of the layer.
abbrev pub is_at : ℕ → Option Interface → Bool
is_at n none = false
is_at n (some i) = eqb (layer i.type) n

-- what one round adds to each list
module _ (x name type : String) (g : Groups) where
  mem-physical :
      mem x (add_interface name type g).physical
      ≡ (mem x g.physical || name == x && eqb (layer type) 0)
  unfolding add_interface mem
  mem-physical = ground (arith, mem-append x g.physical (name ∷ []), eq_iff type "physical")

  mem-bridge :
      mem x (add_interface name type g).bridge ≡ (mem x g.bridge || name == x && eqb (layer type) 1)
  unfolding add_interface mem
  mem-bridge = ground (
    arith,
    mem-append x g.bridge (name ∷ []),
    eq_iff type "vlan",
    eq_iff type "bridge",
    eq_iff "vlan" "bridge",
  )

  mem-vlan :
      mem x (add_interface name type g).vlan ≡ (mem x g.vlan || name == x && eqb (layer type) 2)
  unfolding add_interface mem
  mem-vlan = ground (
    arith,
    mem-append x g.vlan (name ∷ []),
    eq_iff type "vlan",
    eq_iff type "bridge",
    eq_iff "vlan" "bridge",
  )

  mem-other :
      mem x (add_interface name type g).other ≡ (mem x g.other || name == x && eqb (layer type) 3)
  unfolding add_interface mem
  mem-other = ground (arith, mem-append x g.other (name ∷ []))

-- what the loop has put into the lists
module _ (x : String) where
  in_groups :
      (m : Map Interface) (g : Groups)
      → Distinct m
      → (mem x (group_interfaces m g).physical ≡ (mem x g.physical || is_at 0 (lookup x m)))
        × (mem x (group_interfaces m g).bridge ≡ (mem x g.bridge || is_at 1 (lookup x m)))
        × (mem x (group_interfaces m g).vlan ≡ (mem x g.vlan || is_at 2 (lookup x m)))
        × (mem x (group_interfaces m g).other ≡ (mem x g.other || is_at 3 (lookup x m)))
  unfolding group_interfaces lookup
  in_groups [] g d = (ground arith, ground arith, ground arith, ground arith)
  in_groups ((name, i) ∷ m) g d =
      let (p, b, v, o) = in_groups m (add_interface name i.type g) d.1 in
      let absent : name == x ≡ true → lookup x m ≡ none =
        λ e. ground (arith, eq_iff name x, d.0, e) in
      (
        ground (arith, p, mem-physical x name i.type g, absent),
        ground (arith, b, mem-bridge x name i.type g, absent),
        ground (arith, v, mem-vlan x name i.type g, absent),
        ground (arith, o, mem-other x name i.type g, absent),
      )

-- The order is a block of the physical interfaces, one of the bridges, one of the VLANs and one of
-- all others, and each block holds exactly the interfaces of the configuration with such a type.
pub order_interfaces_lem :
    (m : Map Interface)
    → Distinct m
    → (p b v o : List String) × (order_interfaces m ≡ p ++ b ++ v ++ o)
      × ((x : String)
          → (mem x p ≡ is_at 0 (lookup x m))
            × (mem x b ≡ is_at 1 (lookup x m))
            × (mem x v ≡ is_at 2 (lookup x m))
            × (mem x o ≡ is_at 3 (lookup x m)))
unfolding order_interfaces mem
order_interfaces_lem m d =
    let empty : Groups = record { physical = []; vlan = []; bridge = []; other = [] } in
    let g = group_interfaces m empty in
    (g.physical, g.bridge, g.vlan, g.other, refl, λ x. in_groups x m empty d)

-- Each interface of the configuration is in the order, and no other name is.
pub mem-order_interfaces :
    (m : Map Interface) (x : String) → Distinct m → mem x (order_interfaces m) ≡ has x m
mem-order_interfaces m x d =
    let (p, b, v, o, blocks, all) = order_interfaces_lem m d in
    let (hp, hb, hv, ho) = all x in
    rw (blocks, mem-append, mem-append, mem-append, hp, hb, hv, ho) (one_layer (lookup x m))
  where
    one_layer :
        (i : Option Interface) → (is_at 0 i || is_at 1 i || is_at 2 i || is_at 3 i) ≡ is_some i
    one_layer none = refl
    one_layer (some i) = ground arith
