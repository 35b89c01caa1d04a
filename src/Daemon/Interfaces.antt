-- ===== src/Daemon/Interfaces.antt =====
-- `orderInterfaces` of daemon/server.go: the order in which interfaces are configured.
pub mod Ordered
use jack.Base.{String, ◌==◌, List, [], ◌∷◌, ◌++◌, if◌then◌else◌}
use jack.Base.Maps.{Map}
use jack.Types.Network.{Interface}

-- The four lists that the loop fills.
pub record Groups : Type 0 where
  pub physical : List String
  pub vlan : List String
  pub bridge : List String
  pub other : List String

-- One round of the loop: the switch on the type.
unfoldable pub add_interface : String → String → Groups → Groups
add_interface name type g =
    if type == "physical"
    then record g { physical = g.physical ++ name ∷ [] }
    else if type == "vlan"
    then record g { vlan = g.vlan ++ name ∷ [] }
    else if type == "bridge"
    then record g { bridge = g.bridge ++ name ∷ [] }
    else record g { other = g.other ++ name ∷ [] }

unfoldable pub group_interfaces : Map Interface → Groups → Groups
group_interfaces [] g = g
group_interfaces ((name, i) ∷ m) g = group_interfaces m (add_interface name i.type g)

-- Bridges come before VLANs, which can be on top of them.
unfoldable pub order_interfaces : Map Interface → List String
order_interfaces m =
    let g = group_interfaces m (record { physical = []; vlan = []; bridge = []; other = [] }) in
    g.physical ++ g.bridge ++ g.vlan ++ g.other
