-- ===== src/Daemon/Server.antt =====
-- daemon/server.go: the handlers that read and change the configuration.
pub mod Staging
pub mod Edits
use jack.Base.{
  ℕ, String, ◌==◌, Bool, not, Option, none, some, List, [], ◌∷◌, ◌++◌, is_some, if◌then◌else◌,
}
use jack.Base.Maps.{Map, lookup, insert, has}
use jack.Base.Lists.{mem}
use jack.Base.Text.{split, join}
use jack.Base.Outcome.{Outcome, ok, err, panic, ◌>>=◌}
use jack.Types.Value.{Value, Fields}
use jack.Types.Network.{InterfacesConfig, RoutesConfig, Interface, Route}
use jack.Types.Codec.{Codec}
use jack.Daemon.Config.{Config, interfaces, routes, jack_config, plugin, nil_map}
use jack.Daemon.State.{
  State, Ref, alloc, copy_struct, give_map, store, load, get_current, get_committed,
  has_pending_for, set_pending, get_current_interfaces, get_current_routes,
}
use jack.Daemon.Path.{Found, dot, parse_config_type, set_value, get_value}
use jack.Daemon.Registry.{PluginRegistry, get_path_prefix, list}

-- The path prefix of a plugin is put behind its namespace.
abbrev rewrite_parts : PluginRegistry → String → List String → String
rewrite_parts registry path [] = path
rewrite_parts registry path (namespace ∷ []) = path
rewrite_parts registry path (namespace ∷ parts) =
    let prefix = get_path_prefix namespace registry in
    if prefix == "" then path else join dot (namespace ∷ prefix ∷ parts)

unfoldable pub rewrite_path : PluginRegistry → String → String
rewrite_path registry path = rewrite_parts registry path (split dot path)

-- A new map with the entries of the old one, which may be nil.
abbrev copy_map {ℓ} : {A : Type ℓ} → Option (Map A) → Option (Map A)
copy_map none = some []
copy_map (some m) = some m

abbrev pub copied_interfaces : InterfacesConfig → InterfacesConfig
copied_interfaces c = record c { interfaces = copy_map c.interfaces }

abbrev pub copied_routes : RoutesConfig → RoutesConfig
copied_routes c = record c { routes = copy_map c.routes }

-- The struct is copied, with a reference to the old map, and is then given a map of its own.
unfoldable pub deep_copy_interfaces : Ref → InterfacesConfig → State → Ref × State
deep_copy_interfaces src c s =
    let (dst, s') = copy_struct src (interfaces c) s in
    (some dst, give_map dst (interfaces (copied_interfaces c)) s')

unfoldable pub deep_copy_routes : Ref → RoutesConfig → State → Ref × State
deep_copy_routes src c s =
    let (dst, s') = copy_struct src (routes c) s in
    (some dst, give_map dst (routes (copied_routes c)) s')

-- A reference to a new object.
abbrev fresh : State → Config → Ref × State
fresh s c = let (a, s') = alloc c s in (some a, s')

-- Encoding a configuration as JSON and decoding it: a map comes back as an equal one, a struct as
-- a map, a nil map as nil.
unfoldable pub deep_copy_generic : Codec → State → Option Config → Ref × State
deep_copy_generic codec s none = (none, s)
deep_copy_generic codec s (some (plugin fs)) = fresh s (plugin fs)
deep_copy_generic codec s (some nil_map) = (none, s)
deep_copy_generic codec s (some (jack_config c)) = fresh s (plugin (codec.from_jack c))
deep_copy_generic codec s (some (interfaces c)) = fresh s (plugin (codec.from_interfaces c))
deep_copy_generic codec s (some (routes c)) = fresh s (plugin (codec.from_routes c))

copy_interfaces : State → Ref → Ref → Option Config → Ref × State
copy_interfaces s config src (some (interfaces c)) = deep_copy_interfaces src c s
copy_interfaces s config src other = (config, s)

copy_routes : State → Ref → Ref → Option Config → Ref × State
copy_routes s config src (some (routes c)) = deep_copy_routes src c s
copy_routes s config src other = (config, s)

-- The switch on the configuration type, for the committed configuration and its content. `config`
-- is what stays if a type assertion fails.
unfoldable pub copy_committed : Codec → String → Ref → Ref → Option Config → State → Ref × State
unfolding deep_copy_generic copy_interfaces copy_routes
copy_committed codec type config committed content s =
    if type == "interfaces"
    then copy_interfaces s config committed content
    else if type == "routes"
    then copy_routes s config committed content
    else deep_copy_generic codec s content

-- The configuration that a `set` changes: the pending one, or else a copy of the committed one.
unfoldable pub editable : Codec → String → State → Outcome (Ref × State)
unfolding copy_committed
editable codec type s = do
  config ← get_current type s
  committed ← get_committed type s
  ok (
      if has_pending_for type s
      then (config, s)
      else copy_committed codec type config committed (load s committed) s)

-- `SetValue` changes the object that is referred to, and the reference is stored as pending.
abbrev pub stage : String → Ref → Config → State → State
stage type none c s = set_pending type none s
stage type (some a) c s = set_pending type (some a) (store a c s)

-- An error leaves the state as it was; a copy that was made for nothing is garbage.
unfoldable pub handle_set : Codec → PluginRegistry → String → Value → State → Outcome State
handle_set codec registry raw value s = do
  let path = rewrite_path registry raw
  type ← parse_config_type path
  edit ← editable codec type s
  config ← set_value codec (load edit.1 edit.0) path value
  ok (stage type edit.0 config edit.1)

-- An entry of the answer to an empty path; a configuration may be nil.
pub data Listed : Type 0 where
  interface_entries : Option (Map Interface) → Listed
  route_entries : Option (Map Route) → Listed
  configuration : Option Config → Listed

add_interfaces : Option InterfacesConfig → Map Listed → Map Listed
add_interfaces none all = all
add_interfaces (some c) all = insert "interfaces" (interface_entries c.interfaces) all

add_routes : Option RoutesConfig → Map Listed → Map Listed
add_routes none all = all
add_routes (some c) all = insert "routes" (route_entries c.routes) all

add_config : State → String → Outcome Ref → Map Listed → Map Listed
add_config s namespace (ok r) all = insert namespace (configuration (load s r)) all
add_config s namespace failed all = all

unfoldable pub add_configs : List String → State → Map Listed → Map Listed
unfolding add_config
add_configs [] s all = all
add_configs (namespace ∷ namespaces) s all =
    add_configs namespaces s (add_config s namespace (get_current namespace s) all)

unfoldable pub all_configs : PluginRegistry → State → Map Listed
unfolding add_interfaces add_routes
all_configs registry s =
    add_configs (list registry) s
      (add_routes (get_current_routes s) (add_interfaces (get_current_interfaces s) []))

pub data Answer : Type 0 where
  all : Map Listed → Answer
  one : Found → Answer
  whole : Option Config → Answer

unfoldable pub handle_get : PluginRegistry → String → State → Outcome Answer
handle_get registry raw s = if raw == "" then ok (all (all_configs registry s)) else (do
  let path = rewrite_path registry raw
  type ← parse_config_type path
  config ← get_current type s
  found ← get_value (load s config) path
  ok (one found))

-- The path is not rewritten here.
unfoldable pub handle_show : PluginRegistry → String → State → Outcome Answer
handle_show registry path s =
    if path == ""
    then ok (all (all_configs registry s))
    else (do type ← parse_config_type path; config ← get_current type s; ok (whole (load s config)))
