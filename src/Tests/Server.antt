-- ===== src/Tests/Server.antt =====
-- The handlers of daemon/server.go at a state with one plugin configuration.
use jack.Base.{◌≡◌, refl, String, ◌∷◌, [], true, Option, some, none}
use jack.Base.Maps.{Map, lookup, insert}
use jack.Base.Text.{split}
use jack.Base.Outcome.{Outcome, ok, err}
use jack.Types.Value.{Value, null, bool, obj, field, end, put}
use jack.Types.Network.{Interface, Route}
use jack.Types.Codec.{Codec}
use jack.Daemon.Config.{Config}
use jack.Daemon.State.{alloc, load_committed, get_current, get_committed, has_pending_for}
use jack.Daemon.Path.{parse_config_type, set_value, set_plugin_value, new_route}
use jack.Daemon.Path.Generic.{set_generic_value}
use jack.Daemon.Registry.{new_plugin_registry, get_path_prefix}
use jack.Daemon.Server.{rewrite_path, handle_set, editable}
use jack.Daemon.Server.Staging.{Stages}
use jack.Daemon.Server.Edits.{basis, handle_set-Stages}
use jack.Tests.State.{loaded, loaded-IsIsolated, changed}
use jack.Tests.Paths.{bare_interface}

-- a codec that knows the shape of a value but reads no fields of structs
abbrev interface_map_of : Value → Outcome (Option (Map Interface))
interface_map_of null = ok none
interface_map_of (obj end) = ok (some [])
interface_map_of (obj (field k v fs)) = ok (some ((k, bare_interface) ∷ []))
interface_map_of v = err "cannot unmarshal"

abbrev route_map_of : Value → Outcome (Option (Map Route))
route_map_of null = ok none
route_map_of (obj fs) = ok (some [])
route_map_of v = err "cannot unmarshal"

abbrev pub codec : Codec
codec = record {
  to_interface = λ v. ok bare_interface;
  to_interfaces = interface_map_of;
  to_route = λ v. ok new_route;
  to_routes = route_map_of;
  to_route_list = λ v. ok [];
  from_interfaces = λ c. end;
  from_routes = λ c. end;
  from_jack = λ c. end;
  to_interfaces-null = refl;
  to_routes-null = refl;
}

set_led : handle_set codec new_plugin_registry "led.enabled" (bool true) loaded ≡ ok changed
unfolding handle_set parse_config_type split rewrite_path get_path_prefix lookup editable
    get_current load_committed insert alloc get_committed set_value has_pending_for set_plugin_value
    set_generic_value put
set_led = refl

handle_set-Stages_example :
    (type : String) × (c : Config) × (parse_config_type
        (rewrite_path new_plugin_registry "led.enabled")
      ≡ ok type)
    × (set_value codec
          (basis codec type loaded)
          (rewrite_path new_plugin_registry "led.enabled")
          (bool true)
        ≡ ok c)
    × Stages type c loaded changed
handle_set-Stages_example =
    handle_set-Stages codec new_plugin_registry "led.enabled" (bool true) loaded changed
      loaded-IsIsolated set_led
