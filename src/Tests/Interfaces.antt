-- ===== src/Tests/Interfaces.antt =====
-- The order of a bridge, a VLAN and a physical interface.
use jack.Base.{◌≡◌, refl, String, List, ◌∷◌, [], ◌++◌}
use jack.Base.Lists.{mem}
use jack.Base.Maps.{Map, Distinct, lookup}
use jack.Types.Network.{Interface}
use jack.Daemon.Interfaces.{order_interfaces}
use jack.Daemon.Interfaces.Ordered.{is_at, order_interfaces_lem}
use jack.Tests.Paths.{bare_interface}

abbrev home : Map Interface
home =
    ("lan.10", record bare_interface { type = "vlan" })
    ∷ ("lan", record bare_interface { type = "bridge" })
    ∷ ("eth0", bare_interface)
    ∷ []

home-Distinct : Distinct home
unfolding lookup
home-Distinct = (refl, (refl, (refl, tt)))

order_interfaces_lem_example :
    (p b v o : List String) × (order_interfaces home ≡ p ++ b ++ v ++ o)
    × ((x : String)
        → (mem x p ≡ is_at 0 (lookup x home))
          × (mem x b ≡ is_at 1 (lookup x home))
          × (mem x v ≡ is_at 2 (lookup x home))
          × (mem x o ≡ is_at 3 (lookup x home)))
order_interfaces_lem_example = order_interfaces_lem home home-Distinct
