-- ===== src/Daemon/Runtime.antt =====
-- The handlers of daemon/server.go that enable and disable plugins while the daemon runs, with the
-- unloading and the dependency check of daemon/loader.go and the defaults of state/jack.go.
pub mod Keeps
pub mod Disabled
use jack.Base.{
  String, ◌==◌, Bool, true, false, not, ◌&&◌, ◌||◌, Option, none, some, List, [], ◌∷◌, is_some,
  if◌then◌else◌,
}
use jack.Base.Lists.{mem}
use jack.Base.Maps.{Map, lookup, insert, has, entries}
use jack.Base.Outcome.{Outcome, ok, err, panic}
use jack.Types.Value.{Value, obj}
use jack.Types.Network.{JackConfig, PluginState}
use jack.Validation.{Error}
use jack.Daemon.Commit.{Response}
use jack.Daemon.Plugin.{Plugin, PluginMetadata}
use jack.Daemon.Registry.{
  PluginRegistry, register, unregister, get, is_registered, get_namespace_for_plugin,
}
use jack.Daemon.Services.{
  ServiceRegistry, register_plugin, unregister_plugin, interrupted, services_of,
}

-- The processes of the plugins and the files of state/.
pub record Processes : Type 1 where
  pub World : Type 0
  -- `LoadPlugin` of daemon/loader.go, which returns a plugin or an error
  pub load_plugin : String → World → Outcome Plugin × World
  pub close : Plugin → World → Error × World
  pub flush : Plugin → World → Error × World
  pub apply_value : Plugin → Value → World → Error × World
  -- `ScanPlugins`
  pub scan : World → Outcome (Map PluginMetadata) × World
  pub read_value : String → World → Outcome Value
  -- jack.json; `none` if there is no such file
  pub read_jack : World → Option (Outcome JackConfig)
  pub save_jack : JackConfig → World → Error × World

abbrev pub default_jack_config : JackConfig
default_jack_config =
    let enabled : PluginState = record { version = ""; enabled = true } in
    record {
      plugins = some (("nftables", enabled) ∷ ("dnsmasq", enabled) ∷ ("monitoring", enabled) ∷ []);
      observer = none;
      logging = none;
      version = "1.0";
    }

abbrev pub with_defaults : Option (Outcome JackConfig) → Outcome JackConfig
with_defaults none = ok default_jack_config
with_defaults (some (ok c)) = if is_some c.plugins then ok c else ok default_jack_config
with_defaults (some failed) = err "failed to load jack config"

-- `CheckDependencies`: the namespaces of the plugins that name this one as a dependency.
unfoldable pub dependents : String → Map Plugin → List String
dependents name [] = []
dependents name ((ns, p) ∷ m) =
    let rest = dependents name m in if mem name p.metadata.dependencies then ns ∷ rest else rest

abbrev pub check_dependencies : String → PluginRegistry → Error
check_dependencies name r = elim (dependents name r.plugins) [
  | [] ↦ none
  | ◌∷◌ ns rest ↦ some "cannot disable plugin"
]

module _ (host : Processes) where
  pub record Manager : Type 0 where
    pub registry : PluginRegistry
    pub services : ServiceRegistry
    pub world : host.World

  unfoldable pub load_jack_config : host.World → Outcome JackConfig
  load_jack_config world = with_defaults (host.read_jack world)

  abbrev pub Answer : Type 0
  Answer = Response × Manager

  -- `UnloadPlugin`
  unfoldable pub unload_plugin : Plugin → host.World → Error × host.World
  unload_plugin p world =
      let (flushed, world') = host.flush p world in
      let (closed, world'') = host.close p world' in
      elim flushed [
        | none ↦ elim closed [
          | none ↦ (none, world'')
          | some e ↦ (some "failed to close plugin", world'')
        ]
        | some e ↦ (some "failed to flush plugin", world')
      ]

  -- `if err != nil { return ... }`
  abbrev pub unless : Error → String → (Manager → Answer) → Manager → Answer
  unless none message next m = next m
  unless (some e) message next m = (err message, m)

  abbrev pub answer_saved : Error → String → Manager → Answer
  answer_saved none message m = (ok message, m)
  answer_saved (some text) message m = (err "failed to save config", m)

  -- The state of a plugin in jack.json is written.
  unfoldable pub save_state : JackConfig → String → PluginState → String → Manager → Answer
  save_state c name state message m =
      let (e, world) =
        host.save_jack (record c { plugins = some (insert name state (entries c.plugins)) })
          m.world in
      answer_saved e message (record m { world = world })

  abbrev closed : Plugin → Manager → Manager
  closed p m = record m { world = (host.close p m.world).1 }

  -- A configuration that cannot be applied is logged only.
  applied : Plugin → Outcome Value → host.World → host.World
  applied p (ok v) world = (host.apply_value p v world).1
  applied p failed world = elim p.metadata.default_config [
    | none ↦ world
    | some f ↦ (host.apply_value p (obj f) world).1
  ]

  finish_enabling : JackConfig → String → Plugin → Manager → Answer
  unfolding applied
  finish_enabling c name p m =
      let world = applied p (host.read_value name m.world) m.world in
      save_state c name (record { version = p.metadata.version; enabled = true })
        "Plugin enabled successfully" (record m { world = world })

  -- What the service registry answered.
  with_services : JackConfig → String → Plugin → Outcome (Unit {0}) → Manager → Answer
  unfolding finish_enabling
  with_services c name p (ok done) m = finish_enabling c name p m
  with_services c name p failed m = (
    err "failed to register plugin services",
    closed p (record m { registry = unregister p.metadata.namespace m.registry }),
  )

  -- What the plugin registry answered.
  with_registered : JackConfig → String → Plugin → Outcome (Unit {0}) → Manager → Answer
  unfolding with_services
  with_registered c name p (ok done) m =
      let (registered, services) =
        register_plugin p.metadata.namespace p p.provided_services m.services in
      with_services c name p registered (record m { services = services })
  with_registered c name p failed m = (err "failed to register plugin", closed p m)

  enable_loaded : JackConfig → String → Outcome Plugin → Manager → Answer
  unfolding with_registered
  enable_loaded c name (ok p) m =
      let (registered, registry) = register p name m.registry in
      with_registered c name p registered (record m { registry = registry })
  enable_loaded c name (err e) m = (err "failed to load plugin", m)
  enable_loaded c name (panic e) m = (panic e, m)

  -- The registry is asked with the version of the plugin, as in the source.
  abbrev pub already_enabled : String → JackConfig → PluginRegistry → Bool
  already_enabled name c r = elim (lookup name (entries c.plugins)) [
    | none ↦ false
    | some state ↦ state.enabled && is_registered state.version r
  ]

  enable_in : Outcome JackConfig → String → Manager → Answer
  unfolding enable_loaded
  enable_in (ok c) name m =
      let (loaded, world) = host.load_plugin name m.world in
      if already_enabled name c m.registry
      then (err "plugin is already enabled", m)
      else enable_loaded c name loaded (record m { world = world })
  enable_in (err e) name m = (err "failed to load config", m)
  enable_in (panic e) name m = (panic e, m)

  unfoldable pub handle_plugin_enable : String → Manager → Answer
  unfolding enable_in
  handle_plugin_enable name m =
      if name == ""
      then (err "plugin name required", m)
      else enable_in (load_jack_config m.world) name m

  abbrev disabled : PluginState → PluginState
  disabled state = record state { enabled = false }

  -- What the removal of the services gave; after a panic, `m` has what it left of them.
  without_services : JackConfig → String → PluginState → Outcome ServiceRegistry → Manager → Answer
  without_services c name state (ok services) m =
      save_state c name (disabled state) "Plugin disabled successfully"
        (record m { services = services })
  without_services c name state (err e) m = (err e, m)
  without_services c name state (panic e) m = (panic e, m)

  -- Behind the unloading.
  unregister_both : JackConfig → String → String → PluginState → Manager → Answer
  unfolding without_services
  unregister_both c name ns state m =
      without_services c name state (unregister_plugin ns m.services) (record m {
        registry = unregister ns m.registry;
        services = interrupted (services_of ns m.services) m.services;
      })

  disable_plugin : JackConfig → String → String → PluginState → Option Plugin → Manager → Answer
  unfolding unregister_both
  disable_plugin c name ns state none m = (err "plugin not found in registry", m)
  disable_plugin c name ns state (some p) m =
      let (e, world) = unload_plugin p m.world in
      unless e "failed to unload plugin" (λ m'. unregister_both c name ns state m')
        (record m { world = world })

  disable_found : JackConfig → String → PluginState → Option String → Manager → Answer
  unfolding disable_plugin
  disable_found c name state none m =
      save_state c name (disabled state) "Plugin disabled (was not loaded)" m
  disable_found c name state (some ns) m = disable_plugin c name ns state (get ns m.registry) m

  disable_state : JackConfig → String → Option PluginState → Manager → Answer
  unfolding disable_found
  disable_state c name none m = (err "plugin not found in configuration", m)
  disable_state c name (some state) m =
      if not state.enabled
      then (err "plugin is already disabled", m)
      else unless (check_dependencies name m.registry) "cannot disable plugin"
          (λ m'. disable_found c name state (get_namespace_for_plugin name m'.registry) m') m

  disable_in : Outcome JackConfig → String → Manager → Answer
  unfolding disable_state
  disable_in (ok c) name m = disable_state c name (lookup name (entries c.plugins)) m
  disable_in (err e) name m = (err "failed to load config", m)
  disable_in (panic e) name m = (panic e, m)

  unfoldable pub handle_plugin_disable : String → Manager → Answer
  unfolding disable_in
  handle_plugin_disable name m =
      if name == ""
      then (err "plugin name required", m)
      else disable_in (load_jack_config m.world) name m

  -- The loop of a rescan: new plugins are added as disabled.
  unfoldable pub add_new : Map PluginMetadata → Map PluginState → List String × Map PluginState
  add_new [] plugins = ([], plugins)
  add_new ((name, metadata) ∷ m) plugins =
      let state : PluginState = record { version = metadata.version; enabled = false } in
      let (names, added) = add_new m (insert name state plugins) in
      let rest = add_new m plugins in if has name plugins then rest else (name ∷ names, added)

  rescan_in : Map PluginMetadata → Outcome JackConfig → Manager → Answer
  rescan_in available (ok c) m =
      let (names, plugins) = add_new available (entries c.plugins) in
      let (e, world) = host.save_jack (record c { plugins = some plugins }) m.world in
      elim names [
        | [] ↦ (ok "No new plugins found", m)
        | ◌∷◌ name more ↦ elim e [
          | none ↦ (ok "Added new plugins as disabled", record m { world = world })
          | some text ↦ (err "failed to save config", record m { world = world })
        ]
      ]
  rescan_in available (err e) m = (err "failed to load config", m)
  rescan_in available (panic e) m = (panic e, m)

  rescan_found : Outcome (Map PluginMetadata) → Manager → Answer
  unfolding rescan_in
  rescan_found (ok available) m = rescan_in available (load_jack_config m.world) m
  rescan_found (err e) m = (err "failed to scan plugins", m)
  rescan_found (panic e) m = (panic e, m)

  unfoldable pub handle_plugin_rescan : Manager → Answer
  unfolding rescan_found
  handle_plugin_rescan m =
      let (found, world) = host.scan m.world in rescan_found found (record m { world = world })
