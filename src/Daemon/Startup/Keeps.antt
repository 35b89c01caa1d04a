-- ===== src/Daemon/Startup/Keeps.antt =====
-- The registries and the configuration state after the plugins have been loaded.
use jack.Base.{String, ◌≡◌, true, Option, none, some, List, [], ◌∷◌, refl, is_some, arith}
use jack.Base.Lists.{Unique}
use jack.Base.Maps.{lookup, insert, entries}
use jack.Base.Outcome.{Outcome, ok, err, panic}
use jack.Types.Value.{end, field}
use jack.Types.Network.{JackConfig}
use jack.Validation.{Error}
use jack.Daemon.Config.{Config, plugin, nil_map, jack_config, interfaces, routes}
use jack.Daemon.Plugin.{Plugin, ServiceDescriptor}
use jack.Daemon.Registry.{register}
use jack.Daemon.Registry.Laws.{register-IsConsistent, unregister-IsConsistent}
use jack.Daemon.Services.{register_plugin}
use jack.Daemon.Services.Sound.Marks.{mark_service_ready_lem}
use jack.Daemon.State.{State}
use jack.Daemon.State.Isolation.{IsIsolated, load_committed-IsIsolated}
use jack.Daemon.Order.{enabled_plugins}
use jack.Daemon.Loading.{Progress, load_plugins}
use jack.Daemon.Loading.Ends.{load_plugins-ends}
use jack.Daemon.Loading.Invariant.{Holds, load_plugins-keeps}
use jack.Daemon.Runtime.{Processes, Manager, load_jack_config}
use jack.Daemon.Runtime.Keeps.{IsGood, register_plugin-IsSound}
use jack.Daemon.Startup.{
  Boot, Loaded, at_world, mark_all, initial_config, after_apply, apply_initial, configure,
  with_services, with_registered, with_plugin, load_single_plugin, loader, finish, after_waves,
  load_in, load_all_plugins, enabled_of, as_map,
}

module _ (host : Processes) where
  -- The registries are in order and the references of the state are isolated.
  abbrev pub IsReady : Boot host → Type 0
  IsReady b = IsGood host b.manager × IsIsolated b.state

  mark_all-IsReady :
      (services : List ServiceDescriptor) (b : Boot host)
      → IsReady b
      → ((mark_all host services b).0 ≡ ok tt) × IsReady (mark_all host services b).1
  unfolding mark_all
  mark_all-IsReady [] b r = (refl, r)
  mark_all-IsReady (s ∷ ss) b r =
      let (services, (marked, sound, ready)) =
        mark_service_ready_lem s.name s.name b.manager.services r.0.1 in
      rw (marked, mark_all)
        (mark_all-IsReady ss (record b { manager = record b.manager { services = services } })
          ((r.0.0, sound), r.1))

  -- A panic is none of the daemon's own.
  abbrev IsFine : Loaded host → Type 0
  IsFine (ok done, b) = IsReady b
  IsFine (err e, b) = IsReady b
  IsFine (panic e, b) = ⊥

  ok-IsFine : (r : Loaded host) → r.0 ≡ ok tt → IsReady r.1 → IsFine r
  ok-IsFine (ok done, b) e h = h
  ok-IsFine (err m, b) e h = h
  ok-IsFine (panic m, b) e h = absurd (ground (arith, e))

  after_apply-IsFine :
      (p : Plugin) (e : Error) (b : Boot host) → IsReady b → IsFine (after_apply host p e b)
  unfolding after_apply
  after_apply-IsFine p none b r =
      let (done, ready) = mark_all-IsReady p.provided_services b r in
      ok-IsFine (mark_all host p.provided_services b) done ready
  after_apply-IsFine p (some e) b r = r

  apply_initial-IsFine :
      (p : Plugin) (c : Config) (b : Boot host) → IsReady b → IsFine (apply_initial host p c b)
  unfolding apply_initial
  apply_initial-IsFine p (plugin (field k v f)) b r = after_apply-IsFine p _ _ r
  apply_initial-IsFine p (plugin end) b r = r
  apply_initial-IsFine p nil_map b r = r
  apply_initial-IsFine p (interfaces c) b r = r
  apply_initial-IsFine p (routes c) b r = r
  apply_initial-IsFine p (jack_config c) b r = r

  with_services-IsFine :
      (name : String) (p : Plugin) (o : Outcome (Unit {0})) (b : Boot host)
      → IsReady b
      → IsFine (with_services host name p o b)
  unfolding with_services configure
  with_services-IsFine name p (ok done) b r =
      let c = initial_config host p (as_map (host.read_value name b.manager.world)) in
      apply_initial-IsFine p c _ (r.0, load_committed-IsIsolated p.metadata.namespace c r.1)
  with_services-IsFine name p (err e) b r =
      ((unregister-IsConsistent p.metadata.namespace b.manager.registry r.0.0, r.0.1), r.1)
  with_services-IsFine name p (panic e) b r =
      ((unregister-IsConsistent p.metadata.namespace b.manager.registry r.0.0, r.0.1), r.1)

  with_registered-IsFine :
      (name : String) (p : Plugin) (o : Outcome (Unit {0})) (b : Boot host)
      → IsReady b
      → IsFine (with_registered host name p o b)
  unfolding with_registered
  with_registered-IsFine name p (ok done) b r =
      let ns = p.metadata.namespace in
      let (o, services) = register_plugin ns p p.provided_services b.manager.services in
      with_services-IsFine name p o
        (record b { manager = record b.manager { services = services } })
        ((r.0.0, register_plugin-IsSound ns p p.provided_services b.manager.services r.0.1), r.1)
  with_registered-IsFine name p (err e) b r = r
  with_registered-IsFine name p (panic e) b r = r

  -- Loading a plugin leaves the daemon ready, and panics only if `LoadPlugin` does.
  abbrev IsLoaded : Outcome Plugin → Loaded host → Type 0
  IsLoaded found r = IsReady r.1 × ((m : String) → r.0 ≡ panic m → found ≡ panic m)

  IsFine-IsLoaded : (found : Outcome Plugin) (r : Loaded host) → IsFine r → IsLoaded found r
  IsFine-IsLoaded found (ok done, b) h = (h, λ m e. absurd (ground (arith, e)))
  IsFine-IsLoaded found (err x, b) h = (h, λ m e. absurd (ground (arith, e)))
  IsFine-IsLoaded found (panic x, b) h = absurd h

  with_plugin-IsLoaded :
      (name : String) (found : Outcome Plugin) (b : Boot host)
      → IsReady b
      → IsLoaded found (with_plugin host name found b)
  unfolding with_plugin
  with_plugin-IsLoaded name (ok p) b r =
      let (o, registry) = register p name b.manager.registry in
      IsFine-IsLoaded (ok p) _ (
        with_registered-IsFine name p o
          (record b {
            manager = record b.manager { registry = registry };
            plugins =
                insert name
                  (record {
                    version = p.metadata.version;
                    enabled = enabled_of host (lookup name b.plugins);
                  })
                  b.plugins;
          })
          ((register-IsConsistent p name b.manager.registry r.0.0, r.0.1), r.1))
  with_plugin-IsLoaded name (err m) b r = (r, λ k e. absurd (ground (arith, e)))
  with_plugin-IsLoaded name (panic m) b r = (r, λ k e. cc)

  load_single_plugin-IsReady :
      (name : String) (b : Boot host) → IsReady b → IsReady (load_single_plugin host name b).1
  unfolding load_single_plugin
  load_single_plugin-IsReady name b r =
      let (found, world) = host.load_plugin name b.manager.world in
      (with_plugin-IsLoaded name found (at_world host b world) r).0

  -- The waves ended, and the daemon is ready if jack.json could be read.
  abbrev pub EndsReady : Option (Outcome (Boot host)) → Type 0
  EndsReady none = ⊥
  EndsReady (some (ok b)) = IsReady b
  EndsReady (some (err m)) = Unit
  EndsReady (some (panic m)) = Unit

  after_waves-EndsReady :
      (c : JackConfig) (o : Option (Progress (loader host)))
      → is_some o ≡ true
      → Holds (loader host) IsReady load_single_plugin-IsReady o
      → EndsReady (after_waves host c o)
  unfolding after_waves finish
  after_waves-EndsReady c none ends h = absurd (ground (arith, ends))
  after_waves-EndsReady c (some p) ends h = (
    h.0,
    load_committed-IsIsolated "jack" (jack_config (record c { plugins = some p.world.plugins }))
        h.1,
  )

  load_in-EndsReady :
      (o : Outcome JackConfig) (m : Manager host) (s : State)
      → ((c : JackConfig) → o ≡ ok c → Unique (enabled_plugins (entries c.plugins)))
      → IsGood host m
      → IsIsolated s
      → EndsReady (load_in host o m s)
  unfolding load_in
  load_in-EndsReady (ok c) m s unique g i =
      let start : Boot host = record { manager = m; state = s; plugins = entries c.plugins } in
      let enabled = enabled_plugins (entries c.plugins) in
      after_waves-EndsReady c (load_plugins (loader host) enabled start)
        (load_plugins-ends (loader host) enabled start (unique c refl))
        (load_plugins-keeps (loader host) IsReady load_single_plugin-IsReady enabled start (g, i))
  load_in-EndsReady (err e) m s unique g i = tt
  load_in-EndsReady (panic e) m s unique g i = tt

-- The start of the daemon loads its plugins in waves that end, whatever the plugins do, and leaves
-- consistent registries and an isolated state, if jack.json can be read and enables no plugin twice.
pub load_all_plugins-EndsReady :
    (host : Processes) (m : Manager host) (s : State)
    → ((c : JackConfig)
        → load_jack_config host m.world ≡ ok c
        → Unique (enabled_plugins (entries c.plugins)))
    → IsGood host m
    → IsIsolated s
    → EndsReady host (load_all_plugins host m s)
unfolding load_all_plugins
load_all_plugins-EndsReady host m s unique g i =
    load_in-EndsReady host (load_jack_config host m.world) m s unique g i
