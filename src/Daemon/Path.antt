-- ===== src/Daemon/Path.antt =====
-- daemon/path.go: reading and writing a configuration at a dotted path. A function that changes the
-- configuration through its pointer returns the changed configuration here; where the code returns
-- an error it has changed nothing. `value` is a decoded JSON value, as in every request: the type
-- assertions to `types.Interface`, `types.Route` and containers of these fail on such a value.
pub mod Generic
pub mod Laws
use Prim.Native.String.{◌++◌ as append}
use Prim.Native.Char.{Char}
use jack.Base.{ℕ, ◌+◌, String, ◌==◌, Bool, false, Option, none, some, List, [], ◌∷◌, if◌then◌else◌}
use jack.Base.Int.{pos}
use jack.Base.Maps.{Map, lookup, insert}
use jack.Base.Text.{split}
use jack.Base.Decimal.{decimal}
use jack.Base.Outcome.{Outcome, ok, err, panic, ◌>>=◌}
use jack.Types.Value.{Value, obj, Fields, end}
use jack.Types.Network.{Interface, InterfacesConfig, Route, RoutesConfig}
use jack.Types.Codec.{Codec}
use jack.Daemon.Config.{Config, interfaces, routes, plugin, nil_map}
use jack.Daemon.Navigator.{
  Field, get_struct_field, set_struct_field, interface_struct, struct_interface, route_struct,
  struct_route,
}
pub use Generic.{set_generic_value, get_generic_value}

abbrev pub dot : Char
dot = "."

-- The first part, which is there: `strings.Split` returns at least one.
unfoldable pub parse_config_type : String → Outcome String
parse_config_type path = elim (split dot path) [
  | [] ↦ err "invalid path"
  | config_type ∷ rest ↦ if config_type == "" then err "invalid path" else ok config_type
]

-- What a read returns.
pub data Found : Type 0 where
  value : Value → Found
  whole_map : Fields → Found
  whole_nil_map : Found
  interface_map : Option (Map Interface) → Found
  interface : Interface → Found
  route_map : Option (Map Route) → Found
  route : Route → Found
  field : Field → Found

-- Reading a nil map finds nothing; assigning to one panics.
abbrev pub read {ℓ} : {A : Type ℓ} → String → Option (Map A) → Option A
read k none = none
read k (some m) = lookup k m

abbrev assign {ℓ} : {A : Type ℓ} → String → A → Option (Map A) → Outcome (Option (Map A))
assign k v none = panic "assignment to entry in nil map"
assign k v (some m) = ok (some (insert k v m))

abbrev or_not_found {ℓ} : {A : Type ℓ} → Option A → Outcome A
or_not_found none = err "not found"
or_not_found (some a) = ok a

unfoldable pub set_interface_field : Interface → List String → Value → Outcome Interface
set_interface_field i [] v = panic "index out of range"
set_interface_field i (name ∷ []) v = do
  s ← set_struct_field (interface_struct i) name v
  ok (struct_interface s)
set_interface_field i (name ∷ more) v = err "nested paths not yet supported"

unfoldable pub get_interface_field : Interface → List String → Outcome Found
get_interface_field i [] = panic "index out of range"
get_interface_field i (name ∷ []) = do f ← get_struct_field (interface_struct i) name; ok (field f)
get_interface_field i (name ∷ more) = err "nested paths not yet supported"

unfoldable pub set_route : Route → List String → Value → Outcome Route
set_route r [] v = err "need to specify route field"
set_route r (name ∷ more) v =
    if name == "name"
    then err "unknown route field"
    else do s ← set_struct_field (route_struct r) name v; ok (struct_route s)

unfoldable pub get_route : Route → List String → Outcome Found
get_route r [] = ok (route r)
get_route r (name ∷ more) = do f ← get_struct_field (route_struct r) name; ok (field f)

-- `types.Route{Enabled: false}`
abbrev pub new_route : Route
new_route = record {
  name = "";
  destination = "";
  gateway = "";
  interface = "";
  comment = "";
  metric = pos 0;
  table = pos 0;
  enabled = false;
}

abbrev route_or_new : Option Route → Route
route_or_new none = new_route
route_or_new (some r) = r

-- A slice of routes as a map: under its name, or under its index if it has none.
unfoldable pub routes_by_name : ℕ → List Route → Map Route → Map Route
routes_by_name i [] m = m
routes_by_name i (r ∷ rs) m =
    let key = if r.name == "" then append "route-" (decimal i) else r.name in
    routes_by_name (i + 1) rs (insert key r m)

module _ (codec : Codec) where
  -- `parts` begins with the configuration type.
  unfoldable pub set_interfaces_value :
      InterfacesConfig → List String → Value → Outcome InterfacesConfig
  set_interfaces_value c [] v = err "invalid path for interfaces"
  set_interfaces_value c (type ∷ []) v = do
    m ← codec.to_interfaces v
    ok (record c { interfaces = m })
  set_interfaces_value c (type ∷ name ∷ []) v = do
    i ← codec.to_interface v
    m ← assign name i c.interfaces
    ok (record c { interfaces = m })
  set_interfaces_value c (type ∷ name ∷ parts) v = do
    i ← or_not_found (read name c.interfaces)
    i' ← set_interface_field i parts v
    m ← assign name i' c.interfaces
    ok (record c { interfaces = m })

  -- A value that decodes as a map, or else as a slice.
  decode_routes : Value → Outcome (Option (Map Route))
  decode_routes v = elim (codec.to_routes v) [
    | ok m ↦ ok m
    | err e ↦ (do rs ← codec.to_route_list v; ok (some (routes_by_name 0 rs [])))
    | panic e ↦ panic e
  ]

  unfoldable pub set_routes_value : RoutesConfig → List String → Value → Outcome RoutesConfig
  unfolding decode_routes
  set_routes_value c [] v = err "invalid path for routes"
  set_routes_value c (type ∷ []) v = do m ← decode_routes v; ok (record c { routes = m })
  set_routes_value c (type ∷ name ∷ []) v = do
    r ← codec.to_route v
    m ← assign name r c.routes
    ok (record c { routes = m })
  set_routes_value c (type ∷ name ∷ parts) v = do
    r ← set_route (route_or_new (read name c.routes)) parts v
    m ← assign name r c.routes
    ok (record c { routes = m })

unfoldable pub get_interfaces_value : InterfacesConfig → List String → Outcome Found
get_interfaces_value c [] = err "invalid path for interfaces"
get_interfaces_value c (type ∷ []) = ok (interface_map c.interfaces)
get_interfaces_value c (type ∷ name ∷ []) = do
  i ← or_not_found (read name c.interfaces)
  ok (interface i)
get_interfaces_value c (type ∷ name ∷ parts) = do
  i ← or_not_found (read name c.interfaces)
  get_interface_field i parts

unfoldable pub get_routes_value : RoutesConfig → List String → Outcome Found
get_routes_value c [] = err "invalid path for routes"
get_routes_value c (type ∷ []) = ok (route_map c.routes)
get_routes_value c (type ∷ name ∷ []) = do r ← or_not_found (read name c.routes); ok (route r)
get_routes_value c (type ∷ name ∷ parts) = do
  r ← or_not_found (read name c.routes)
  get_route r parts

-- Replacing a whole map: its keys are deleted and those of the new one copied.
abbrev replace_map : Config → Value → Outcome Config
replace_map nil_map (obj end) = ok nil_map
replace_map nil_map (obj fs) = panic "assignment to entry in nil map"
replace_map c (obj fs) = ok (plugin fs)
replace_map c v = err "value must be a map when setting entire config"

-- The default case of `SetValue`, with the parts behind the configuration type.
unfoldable pub set_plugin_value : Config → List String → Value → Outcome Config
set_plugin_value (plugin fs) [] v = replace_map (plugin fs) v
set_plugin_value (plugin fs) path v = do fs' ← set_generic_value fs path v; ok (plugin fs')
set_plugin_value nil_map [] v = replace_map nil_map v
set_plugin_value nil_map (k ∷ []) v = panic "assignment to entry in nil map"
set_plugin_value nil_map (k ∷ path) v = err "key not found"
set_plugin_value c path v = err "config must be a map for generic path access"

unfoldable pub get_plugin_value : Config → List String → Outcome Found
get_plugin_value (plugin fs) [] = ok (whole_map fs)
get_plugin_value (plugin fs) (k ∷ path) = do v ← get_generic_value fs k path; ok (value v)
get_plugin_value nil_map [] = ok whole_nil_map
get_plugin_value nil_map path = err "key not found"
get_plugin_value c path = err "config must be a map for generic path access"

-- The configuration that is passed is an `interface{}`: `none` is nil.
module _ (codec : Codec) where
  set_interfaces : Option Config → List String → Value → Outcome Config
  set_interfaces (some (interfaces c)) parts v = do
    c' ← set_interfaces_value codec c parts v
    ok (interfaces c')
  set_interfaces _ parts v = err "config is not InterfacesConfig"

  set_routes : Option Config → List String → Value → Outcome Config
  set_routes (some (routes c)) parts v = do c' ← set_routes_value codec c parts v; ok (routes c')
  set_routes _ parts v = err "config is not RoutesConfig"

  set_plugin : Option Config → List String → Value → Outcome Config
  set_plugin (some c) rest v = set_plugin_value c rest v
  set_plugin none rest v = err "config must be a map for generic path access"

  set_parts : Option Config → List String → Value → Outcome Config
  unfolding set_interfaces set_routes set_plugin
  set_parts c [] v = err "invalid path"
  set_parts c (type ∷ rest) v =
      if type == "interfaces"
      then set_interfaces c (type ∷ rest) v
      else if type == "routes"
      then set_routes c (type ∷ rest) v
      else set_plugin c rest v

  unfoldable pub set_value : Option Config → String → Value → Outcome Config
  unfolding set_parts
  set_value c path v = set_parts c (split dot path) v

get_interfaces : Option Config → List String → Outcome Found
get_interfaces (some (interfaces c)) parts = get_interfaces_value c parts
get_interfaces _ parts = err "config is not InterfacesConfig"

get_routes : Option Config → List String → Outcome Found
get_routes (some (routes c)) parts = get_routes_value c parts
get_routes _ parts = err "config is not RoutesConfig"

get_plugin : Option Config → List String → Outcome Found
get_plugin (some c) rest = get_plugin_value c rest
get_plugin none rest = err "config must be a map for generic path access"

get_parts : Option Config → List String → Outcome Found
unfolding get_interfaces get_routes get_plugin
get_parts c [] = err "invalid path"
get_parts c (type ∷ rest) =
    if type == "interfaces"
    then get_interfaces c (type ∷ rest)
    else if type == "routes"
    then get_routes c (type ∷ rest)
    else get_plugin c rest

unfoldable pub get_value : Option Config → String → Outcome Found
unfolding get_parts
get_value c path = get_parts c (split dot path)
