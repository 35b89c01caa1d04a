-- ===== src/Daemon/Commit/Valid.antt =====
-- What a validation without errors says of the pending configurations.
use Prim.Native.String.{◌++◌ as append}
use jack.Base.{
  String, ◌==◌, ◌≡◌, Bool, true, ◌&&◌, Option, none, some, List, [], ◌∷◌, arith, if◌then◌else◌,
  eq_iff, Bool-cases, inl, inr,
}
use jack.Base.Maps.{entries, Map}
use jack.Base.Lists.{mem}
use jack.Base.Outcome.{Outcome, ok, err, panic}
use jack.Types.Network.{Interface, Route}
use jack.Types.Validate.{interface_validate, route_validate}
use jack.Types.Validate.Laws.{accepted}
use jack.Validation.Collector.{
  ErrorCollector, new_collector, check, check_msg, is_clean, is_clean-check, is_clean-check_msg,
}
use jack.Daemon.Config.{Config, interfaces, routes, jack_config, plugin, nil_map}
use jack.Daemon.Plugin.{Plugin}
use jack.Daemon.Registry.{PluginRegistry, get}
use jack.Daemon.State.{State, Ref, load, get_current, get_pending_types}
use jack.Daemon.Commit.{
  Backend, check_interfaces, check_routes, interfaces_case, routes_case, plugin_case, check_config,
  check_current, check_types, validate_pending,
}

module _ (backend : Backend) (registry : PluginRegistry) where
  interfaces_accepted : Map Interface → Bool
  interfaces_accepted [] = true
  interfaces_accepted ((name, i) ∷ m) =
      accepted (interface_validate backend.parsers i) && interfaces_accepted m

  routes_accepted : Map Route → Bool
  routes_accepted [] = true
  routes_accepted ((name, r) ∷ m) = accepted (route_validate backend.parsers r) && routes_accepted m

  plugin_accepted : Option Config → Option Plugin → Bool
  plugin_accepted config none = true
  plugin_accepted config (some p) = accepted (backend.validate_config p config)

  -- The configuration is valid, by its type.
  unfoldable pub config_accepted : String → Option Config → Bool
  unfolding interfaces_accepted routes_accepted plugin_accepted
  config_accepted type config =
      if type == "interfaces"
      then in_interfaces config
      else if type == "routes"
      then in_routes config
      else plugin_accepted config (get type registry)
    where
      in_interfaces : Option Config → Bool
      in_interfaces (some (interfaces c)) = interfaces_accepted (entries c.interfaces)
      in_interfaces other = true

      in_routes : Option Config → Bool
      in_routes (some (routes c)) = routes_accepted (entries c.routes)
      in_routes other = true

  is_clean-check_interfaces :
      (m : Map Interface) (v : ErrorCollector)
      → is_clean (check_interfaces backend registry m v) ≡ (is_clean v && interfaces_accepted m)
  unfolding check_interfaces interfaces_accepted
  is_clean-check_interfaces [] v = ground arith
  is_clean-check_interfaces ((name, i) ∷ m) v =
      let e = interface_validate backend.parsers i in
      let message = append "interface " name in
      ground
        (arith, is_clean-check_interfaces m (check_msg e message v), is_clean-check_msg e message v)

  is_clean-check_routes :
      (m : Map Route) (v : ErrorCollector)
      → is_clean (check_routes backend registry m v) ≡ (is_clean v && routes_accepted m)
  unfolding check_routes routes_accepted
  is_clean-check_routes [] v = ground arith
  is_clean-check_routes ((name, r) ∷ m) v =
      let e = route_validate backend.parsers r in
      ground (arith, is_clean-check_routes m (check e v), is_clean-check e v)

  is_clean-plugin_case :
      (type : String) (config : Option Config) (p : Option Plugin) (v : ErrorCollector)
      → is_clean (plugin_case backend registry type config p v)
        ≡ (is_clean v && plugin_accepted config p)
  unfolding plugin_case plugin_accepted
  is_clean-plugin_case type config none v = ground arith
  is_clean-plugin_case type config (some p) v =
      is_clean-check_msg (backend.validate_config p config) (append type " plugin") v

  is_clean-check_config :
      (type : String) (config : Option Config) (v : ErrorCollector)
      → is_clean (check_config backend registry type config v)
        ≡ (is_clean v && config_accepted type config)
  unfolding check_config config_accepted interfaces_case routes_case
  is_clean-check_config type none v =
      ground (arith, is_clean-plugin_case type none (get type registry) v)
  is_clean-check_config type (some (interfaces c)) v = ground (
    arith,
    is_clean-plugin_case type (some (interfaces c)) (get type registry) v,
    is_clean-check_interfaces (entries c.interfaces) v,
  )
  is_clean-check_config type (some (routes c)) v = ground (
    arith,
    is_clean-plugin_case type (some (routes c)) (get type registry) v,
    is_clean-check_routes (entries c.routes) v,
  )
  is_clean-check_config type (some (jack_config c)) v =
      ground (arith, is_clean-plugin_case type (some (jack_config c)) (get type registry) v)
  is_clean-check_config type (some (plugin fs)) v =
      ground (arith, is_clean-plugin_case type (some (plugin fs)) (get type registry) v)
  is_clean-check_config type (some nil_map) v =
      ground (arith, is_clean-plugin_case type (some nil_map) (get type registry) v)

  check_current-clean :
      (type : String) (s : State) (v : ErrorCollector)
      → is_clean (check_current backend registry type s (get_current type s) v) ≡ true
      → is_clean v ≡ true
  check_current-clean type s v h = go (get_current type s) h
    where
      go :
          (o : Outcome Ref)
          → is_clean (check_current backend registry type s o v) ≡ true
          → is_clean v ≡ true
      go (ok r) h = ground (arith, is_clean-check_config type (load s r) v)
      go (err e) h = ground (arith, is_clean-check_msg (some e) (append "failed to get " type) v)
      go (panic e) h = h

  current-accepted :
      (type : String) (s : State) (v : ErrorCollector) (r : Ref)
      → get_current type s ≡ ok r
      → is_clean (check_current backend registry type s (get_current type s) v) ≡ true
      → config_accepted type (load s r) ≡ true
  current-accepted type s v r at h =
      let clean : is_clean (check_config backend registry type (load s r) v) ≡ true =
        (rw at at h) in
      ground (arith, is_clean-check_config type (load s r) v)

  check_types-clean :
      (types : List String) (s : State) (v : ErrorCollector)
      → is_clean (check_types backend registry types s v) ≡ true
      → is_clean v ≡ true
  unfolding check_types
  check_types-clean [] s v h = h
  check_types-clean (type ∷ types) s v h =
      check_current-clean type s v (check_types-clean types s _ h)

  check_types-accepted :
      (types : List String) (s : State) (v : ErrorCollector) (type : String) (r : Ref)
      → is_clean (check_types backend registry types s v) ≡ true
      → mem type types ≡ true
      → get_current type s ≡ ok r
      → config_accepted type (load s r) ≡ true
  unfolding check_types mem
  check_types-accepted [] s v type r h m at = cc
  check_types-accepted (first ∷ types) s v type r h m at = elim (Bool-cases (first == type)) [
    | inl e ↦
        let same : first ≡ type = (eq_iff first type).0 e in
        current-accepted type s v r at (rw same at (check_types-clean types s _ h))
    | inr ne ↦ check_types-accepted types s _ type r h (rw ne at m) at
  ]

  -- If the validation finds no error, the current configuration of every pending type is valid: an
  -- interface configuration in each interface, a route configuration in each route, and any other
  -- to the plugin of its namespace, if one is registered.
  pub validate_pending-accepted :
      (s : State) (type : String) (r : Ref)
      → validate_pending backend registry s ≡ none
      → mem type (get_pending_types s) ≡ true
      → get_current type s ≡ ok r
      → config_accepted type (load s r) ≡ true
  unfolding validate_pending
  validate_pending-accepted s type r h m at =
      check_types-accepted (get_pending_types s) s new_collector type r (rw h) m at
