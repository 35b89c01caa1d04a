-- ===== src/Daemon/Observer/Drift.antt =====
-- daemon/observer_helpers.go, and the tests of daemon/observer.go for drift: whether a link, an
-- address or a route is as the configuration wants it. A drift is its fixed text, without the names
-- and values formatted into it; the empty text says that there is none.
use Prim.Native.Char.{Char}
use jack.Base.{
  String, ◌==◌, Bool, not, ◌&&◌, ◌||◌, Option, none, some, List, [], ◌∷◌, if◌then◌else◌,
}
use jack.Base.Int.{ℤ, pos, ltz, eqz}
use jack.Base.Maps.{Map, entries}
use jack.Base.Text.{split}
use jack.Types.Network.{Interface, InterfacesConfig, Route}
use jack.Daemon.State.{State, get_current_interfaces, get_current_routes}

unfoldable pub find_in : String → Map Interface → Option Interface
find_in device [] = none
find_in device ((name, i) ∷ m) =
    let rest = find_in device m in
    if i.device_name == device || i.device == device then some i else rest

unfoldable pub find_interface_by_device : Option InterfacesConfig → String → Option Interface
unfolding find_in
find_interface_by_device none device = none
find_interface_by_device (some config) device = find_in device (entries config.interfaces)

unfoldable pub compare_link_state : Interface → Bool → ℤ → String
compare_link_state desired is_up actual_mtu =
    if desired.enabled && not is_up
    then "Interface is down but should be up"
    else if not desired.enabled && is_up
    then "Interface is up but should be down"
    else if ltz (pos 0) desired.mtu && not (eqz actual_mtu desired.mtu)
    then "Interface has another MTU than it should have"
    else ""

-- `strings.Split(s, "/")[0]`
abbrev pub first : List String → String
first [] = ""
first (w ∷ ws) = w

abbrev pub slash : Char
slash = "/"

abbrev pub without_suffix : String → String
without_suffix addr = first (split slash addr)

unfoldable pub compare_ip_address : Interface → String → Bool → String
compare_ip_address desired ip_addr is_new =
    if not (desired.ip_addr == "")
    then (if is_new && not (without_suffix ip_addr == without_suffix desired.ip_addr)
        then "Interface has unexpected IP"
        else "")
    else ""

pub record RouteData : Type 0 where
  pub dst : String
  pub gw : String
  pub table : ℤ

-- `net.ParseCIDR` followed by `String` of the network that it returns.
abbrev pub Networks : Type 0
Networks = String → Option String

abbrev pub normal_destination : String → String
normal_destination dst = if dst == "default" then "0.0.0.0/0" else dst

-- The texts are compared if one of them is no network.
same_network : Option String → Option String → Bool → Bool
same_network (some actual) (some desired) same = actual == desired
same_network actual desired same = same

unfoldable pub route_destinations_match : Networks → String → String → Bool
unfolding same_network
route_destinations_match network actual desired =
    same_network (network (normal_destination actual)) (network (normal_destination desired))
      (normal_destination actual == normal_destination desired)

unfoldable pub compare_route : Networks → Route → RouteData → String → String
compare_route network desired actual action =
    if not (route_destinations_match network actual.dst (normal_destination desired.destination))
    then ""
    else if action == "deleted"
    then "Route was deleted externally"
    else if not (desired.gateway == "") && not (desired.gateway == actual.gw)
    then "Route has another gateway than it should have"
    else if ltz (pos 0) desired.table && not (eqz actual.table desired.table)
    then "Route is in another table than it should be"
    else ""

-- An interface that Jack does not manage never drifts.
abbrev pub drift_if {ℓ} : {A : Type ℓ} → Option A → (A → String) → String
drift_if none f = ""
drift_if (some a) f = f a

unfoldable pub check_link_drift : String → Bool → ℤ → State → String
check_link_drift link is_up mtu s =
    drift_if (find_interface_by_device (get_current_interfaces s) link)
      (λ i. compare_link_state i is_up mtu)

unfoldable pub check_address_drift : String → String → Bool → State → String
check_address_drift link ip is_new s =
    drift_if (find_interface_by_device (get_current_interfaces s) link)
      (λ i. compare_ip_address i ip is_new)

-- The loop over the enabled routes stops at the first drift.
unfoldable pub routes_drift : Networks → Map Route → RouteData → String → String
routes_drift network [] actual action = ""
routes_drift network ((name, r) ∷ m) actual action =
    let rest = routes_drift network m actual action in
    let drift = compare_route network r actual action in
    if not r.enabled then rest else if not (drift == "") then drift else rest

-- A destination or a gateway that netlink does not give.
abbrev pub or_else : String → Option String → String
or_else default none = default
or_else default (some s) = s

unfoldable pub check_route_drift :
    Networks → Option String → Option String → ℤ → String → State → String
check_route_drift network dst gw table action s = drift_if (get_current_routes s) (λ config.
    routes_drift network (entries config.routes)
      (record { dst = or_else "default" dst; gw = or_else "" gw; table = table }) action)
