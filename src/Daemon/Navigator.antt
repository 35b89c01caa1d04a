-- ===== src/Daemon/Navigator.antt =====
-- daemon/navigator.go: fields of a configuration struct, found by their JSON tags. Reflection is
-- modelled by a view: a struct as the list of its tags, each with the field's kind and value. The
-- tags of a struct are distinct, so the cache of field indices finds what a walk of the list finds.
pub mod Laws
pub mod Shape
use jack.Base.{String, Bool, true, false, Option, none, some, List, [], ◌∷◌}
use jack.Base.Int.{ℤ, pos}
use jack.Base.Maps.{Map, lookup, insert}
use jack.Base.Outcome.{Outcome, ok, err, panic, ◌>>=◌}
use jack.Types.Value.{Value, null, bool, num, str, arr, obj, truncate}
use jack.Types.Network.{Ipv6Config, WireGuardPeer, Interface, Route}

-- A field by its `reflect.Kind`: `String`, `Bool`, `Int`, the two kinds of slices, and the pointer.
pub data Field : Type 0 where
  string : String → Field
  boolean : Bool → Field
  int : ℤ → Field
  strings : List String → Field
  peers : List WireGuardPeer → Field
  ipv6 : Option Ipv6Config → Field

abbrev pub Struct : Type 0
Struct = Map Field

-- `reflect.Zero(field.Type())`
abbrev pub zero_of : Field → Field
zero_of (string s) = string ""
zero_of (boolean b) = boolean false
zero_of (int n) = int (pos 0)
zero_of (strings l) = strings []
zero_of (peers l) = peers []
zero_of (ipv6 p) = ipv6 none

abbrev not_assignable : Outcome Field
not_assignable = panic "reflect.Set: value of type []interface {} is not assignable"

-- `setFieldValue` on a decoded JSON value: its dynamic type is nil, bool, float64, string,
-- []interface{} or map[string]interface{}. No slice or pointer field can hold such a value, and
-- `reflect.Value.Set` panics where the types do not fit.
unfoldable pub set_field_value : Field → Value → Outcome Field
set_field_value f null = ok (zero_of f)
set_field_value (string s) (str t) = ok (string t)
set_field_value (string s) v = err "must be a string"
set_field_value (boolean b) (bool c) = ok (boolean c)
set_field_value (boolean b) v = err "must be a boolean"
set_field_value (int n) (num x) = ok (int (truncate x))
set_field_value (int n) v = err "must be a number"
set_field_value (strings l) (arr vs) = not_assignable
set_field_value (strings l) v = err "must be a slice"
set_field_value (peers l) (arr vs) = not_assignable
set_field_value (peers l) v = err "must be a slice"
set_field_value (ipv6 p) v = err "unsupported field type: struct"

-- The field that `getStructFieldByJSONTag` finds.
unfoldable pub get_struct_field : Struct → String → Outcome Field
get_struct_field s field = elim (lookup field s) [ none ↦ err "unknown field" | some f ↦ ok f ]

unfoldable pub set_struct_field : Struct → String → Value → Outcome Struct
unfolding get_struct_field
set_struct_field s field value = do
  f ← get_struct_field s field
  g ← set_field_value f value
  ok (insert field g s)

-- The structs as reflection sees them, in the order of types/types.go.
unfoldable pub interface_struct : Interface → Struct
interface_struct i =
    ("ipv6", ipv6 i.ipv6)
    ∷ ("gateway", string i.gateway)
    ∷ ("comment", string i.comment)
    ∷ ("mac", string i.mac)
    ∷ ("type", string i.type)
    ∷ ("device", string i.device)
    ∷ ("device_name", string i.device_name)
    ∷ ("protocol", string i.protocol)
    ∷ ("ipaddr", string i.ip_addr)
    ∷ ("wg_private_key", string i.wg_private_key)
    ∷ ("netmask", string i.netmask)
    ∷ ("bridge_ports", strings i.bridge_ports)
    ∷ ("dns", strings i.dns)
    ∷ ("wg_peers", peers i.wg_peers)
    ∷ ("metric", int i.metric)
    ∷ ("mtu", int i.mtu)
    ∷ ("bridge_forward_delay", int i.bridge_forward_delay)
    ∷ ("vlan_id", int i.vlan_id)
    ∷ ("wg_listen_port", int i.wg_listen_port)
    ∷ ("enabled", boolean i.enabled)
    ∷ ("bridge_stp", boolean i.bridge_stp)
    ∷ []

unfoldable pub route_struct : Route → Struct
route_struct r =
    ("name", string r.name)
    ∷ ("destination", string r.destination)
    ∷ ("gateway", string r.gateway)
    ∷ ("interface", string r.interface)
    ∷ ("comment", string r.comment)
    ∷ ("metric", int r.metric)
    ∷ ("table", int r.table)
    ∷ ("enabled", boolean r.enabled)
    ∷ []

abbrev string_at : String → Struct → String
string_at k s = elim (lookup k s) [ some (string t) ↦ t | _ ↦ "" ]

abbrev boolean_at : String → Struct → Bool
boolean_at k s = elim (lookup k s) [ some (boolean b) ↦ b | _ ↦ false ]

abbrev int_at : String → Struct → ℤ
int_at k s = elim (lookup k s) [ some (int n) ↦ n | _ ↦ pos 0 ]

abbrev strings_at : String → Struct → List String
strings_at k s = elim (lookup k s) [ some (strings l) ↦ l | _ ↦ [] ]

abbrev peers_at : String → Struct → List WireGuardPeer
peers_at k s = elim (lookup k s) [ some (peers l) ↦ l | _ ↦ [] ]

abbrev ipv6_at : String → Struct → Option Ipv6Config
ipv6_at k s = elim (lookup k s) [ some (ipv6 p) ↦ p | _ ↦ none ]

-- The struct that a view is of.
unfoldable pub struct_interface : Struct → Interface
struct_interface s = record {
  ipv6 = ipv6_at "ipv6" s;
  gateway = string_at "gateway" s;
  comment = string_at "comment" s;
  mac = string_at "mac" s;
  type = string_at "type" s;
  device = string_at "device" s;
  device_name = string_at "device_name" s;
  protocol = string_at "protocol" s;
  ip_addr = string_at "ipaddr" s;
  wg_private_key = string_at "wg_private_key" s;
  netmask = string_at "netmask" s;
  bridge_ports = strings_at "bridge_ports" s;
  dns = strings_at "dns" s;
  wg_peers = peers_at "wg_peers" s;
  metric = int_at "metric" s;
  mtu = int_at "mtu" s;
  bridge_forward_delay = int_at "bridge_forward_delay" s;
  vlan_id = int_at "vlan_id" s;
  wg_listen_port = int_at "wg_listen_port" s;
  enabled = boolean_at "enabled" s;
  bridge_stp = boolean_at "bridge_stp" s;
}

unfoldable pub struct_route : Struct → Route
struct_route s = record {
  name = string_at "name" s;
  destination = string_at "destination" s;
  gateway = string_at "gateway" s;
  interface = string_at "interface" s;
  comment = string_at "comment" s;
  metric = int_at "metric" s;
  table = int_at "table" s;
  enabled = boolean_at "enabled" s;
}
