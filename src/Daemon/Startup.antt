-- ===== src/Daemon/Startup.antt =====
-- `loadPlugins` of daemon/server.go in full: which plugins can be loaded in a wave, and what loading
-- one does to the registries and to the configuration state. It fills the interface `Loader`.
pub mod Keeps
use jack.Base.{
  String, ◌==◌, Bool, true, false, not, Option, none, some, List, [], ◌∷◌, is_some, if◌then◌else◌,
}
use jack.Base.Maps.{Map, lookup, insert, entries}
use jack.Base.Outcome.{Outcome, ok, err, panic, is_ok}
use jack.Types.Value.{Value, Fields, null, obj, end, field}
use jack.Types.Network.{JackConfig, PluginState}
use jack.Validation.{Error}
use jack.Daemon.Config.{Config, plugin, nil_map, jack_config}
use jack.Daemon.Plugin.{Plugin, ServiceDescriptor}
use jack.Daemon.Registry.{register, unregister}
use jack.Daemon.Services.{ServiceRegistry, register_plugin, mark_service_ready, are_services_ready}
use jack.Daemon.State.{State, alloc, load_committed}
use jack.Daemon.Order.{enabled_plugins}
use jack.Daemon.Loading.{Loader, Progress, load_plugins}
use jack.Daemon.Runtime.{Processes, Manager, load_jack_config}

-- `LoadConfig` into a map: JSON null leaves it nil, and any other value but an object is an error.
abbrev as_map : Outcome Value → Outcome Config
as_map (ok (obj f)) = ok (plugin f)
as_map (ok null) = ok nil_map
as_map (ok other) = err "failed to parse config"
as_map (err e) = err e
as_map (panic e) = panic e

module _ (host : Processes) where
  pub record Boot : Type 0 where
    pub manager : Manager host
    pub state : State
    pub plugins : Map PluginState

  abbrev pub Loaded : Type 0
  Loaded = Outcome (Unit {0}) × Boot

  abbrev pub at_world : Boot → host.World → Boot
  at_world b world = record b { manager = record b.manager { world = world } }

  abbrev closing : Plugin → Boot → Boot
  closing p b = at_world b (host.close p b.manager.world).1

  unfoldable pub mark_all : List ServiceDescriptor → Boot → Loaded
  mark_all [] b = (ok tt, b)
  mark_all (s ∷ ss) b = elim (mark_service_ready s.name b.manager.services) [
    | ok services ↦ mark_all ss (record b { manager = record b.manager { services = services } })
    | err e ↦ mark_all ss b
    | panic e ↦ (panic e, b)
  ]

  -- The configuration of the file, or the default one, or an empty map.
  abbrev pub initial_config : Plugin → Outcome Config → Config
  initial_config p (ok c) = c
  initial_config p failed = elim p.metadata.default_config [ none ↦ plugin end | some f ↦ plugin f ]

  after_apply : Plugin → Error → Boot → Loaded
  after_apply p none b = mark_all p.provided_services b
  after_apply p (some e) b = (err "failed to apply plugin config", b)

  -- An empty configuration is not applied, and its services are not ready.
  apply_initial : Plugin → Config → Boot → Loaded
  unfolding after_apply
  apply_initial p (plugin (field k v f)) b =
      let (e, world) = host.apply_value p (obj (field k v f)) b.manager.world in
      after_apply p e (at_world b world)
  apply_initial p other b = (ok tt, b)

  configure : Plugin → Config → Boot → Loaded
  unfolding apply_initial
  configure p c b =
      let (a, s) = alloc c b.state in
      apply_initial p c (record b { state = load_committed p.metadata.namespace (some a) s })

  with_services : String → Plugin → Outcome (Unit {0}) → Boot → Loaded
  unfolding configure
  with_services name p (ok done) b =
      configure p (initial_config p (as_map (host.read_value name b.manager.world))) b
  with_services name p failed b = (
    err "failed to register plugin services",
    closing p (record b {
      manager = record b.manager { registry = unregister p.metadata.namespace b.manager.registry };
    }),
  )

  with_registered : String → Plugin → Outcome (Unit {0}) → Boot → Loaded
  unfolding with_services
  with_registered name p (ok done) b =
      let (o, services) =
        register_plugin p.metadata.namespace p p.provided_services b.manager.services in
      with_services name p o (record b { manager = record b.manager { services = services } })
  with_registered name p failed b = (err "failed to register plugin", closing p b)

  abbrev enabled_of : Option PluginState → Bool
  enabled_of none = false
  enabled_of (some state) = state.enabled

  with_plugin : String → Outcome Plugin → Boot → Loaded
  unfolding with_registered
  with_plugin name (ok p) b =
      let (o, registry) = register p name b.manager.registry in
      with_registered name p o (record b {
        manager = record b.manager { registry = registry };
        plugins =
            insert name
              (record {
                version = p.metadata.version;
                enabled = enabled_of (lookup name b.plugins);
              })
              b.plugins;
      })
  with_plugin name (err e) b = (err "failed to load plugin", b)
  with_plugin name (panic e) b = (panic e, b)

  unfoldable pub load_single_plugin : String → Boot → Loaded
  unfolding with_plugin
  load_single_plugin name b =
      let (loaded, world) = host.load_plugin name b.manager.world in
      with_plugin name loaded (at_world b world)

  needs_met : Outcome Plugin → ServiceRegistry → Bool
  needs_met (ok p) services = elim p.required_services [
    | [] ↦ true
    | ◌∷◌ s ss ↦ are_services_ready (s ∷ ss) services
  ]
  needs_met failed services = false

  -- The plugin is started for its requirements only, and closed again.
  unfoldable pub can_load_plugin : String → Boot → Bool
  unfolding needs_met
  can_load_plugin name b = needs_met (host.load_plugin name b.manager.world).0 b.manager.services

  -- An error is logged; the loop needs only to know whether there was one. `LoadPlugin` returns a
  -- plugin or an error; the start is modelled for processes that do not make it panic.
  abbrev pub loader : Loader
  loader = record {
    World = Boot;
    can_load = can_load_plugin;
    load_plugin = λ name b. let (o, b') = load_single_plugin name b in (is_ok o, b');
  }

  -- jack.json is saved with the versions, and is the committed configuration of the daemon. The
  -- outcome of saving is logged only.
  finish : JackConfig → Boot → Boot
  finish c b =
      let c' = record c { plugins = some b.plugins } in
      let (a, s) = alloc (jack_config c') b.state in
      at_world (record b { state = load_committed "jack" (some a) s })
        (host.save_jack c' b.manager.world).1

  after_waves : JackConfig → Option (Progress loader) → Option (Outcome Boot)
  unfolding finish
  after_waves c none = none
  after_waves c (some p) = some (ok (finish c p.world))

  load_in : Outcome JackConfig → Manager host → State → Option (Outcome Boot)
  unfolding after_waves
  load_in (ok c) m s = after_waves c (
      load_plugins loader (enabled_plugins (entries c.plugins))
        (record { manager = m; state = s; plugins = entries c.plugins }))
  load_in failed m s = some (err "failed to load Jack config")

  -- `none`: the waves ran out of fuel.
  unfoldable pub load_all_plugins : Manager host → State → Option (Outcome Boot)
  unfolding load_in
  load_all_plugins m s = load_in (load_jack_config host m.world) m s
