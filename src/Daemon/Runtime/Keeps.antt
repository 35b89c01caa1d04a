-- ===== src/Daemon/Runtime/Keeps.antt =====
-- Enabling and disabling plugins keeps both registries in order, on every branch.
use mathlib.Core.Path.{subst}
use jack.Base.{
  String, ◌==◌, ◌≡◌, ◌≢◌, ℕ, Option-cases, Bool, true, false, Option, none, some, List, [], ◌∷◌,
  refl, inl, inr, arith, not, Bool-cases, if◌then◌else◌,
}
use jack.Base.Maps.{Map, lookup, insert, entries}
use jack.Base.Outcome.{Outcome, ok, err, panic, ◌>>=◌}
use jack.Types.Network.{JackConfig, PluginState}
use jack.Validation.{Error}
use jack.Daemon.Plugin.{Plugin, ServiceDescriptor}
use jack.Daemon.Registry.{register, unregister, get, get_namespace_for_plugin}
use jack.Daemon.Registry.Laws.{IsConsistent, register-IsConsistent, unregister-IsConsistent}
use jack.Daemon.Services.{
  ServiceRegistry, services_of, register_plugin, unregister_plugin, unregister_services,
  unregister_service, close, interrupted, is_service_ready,
}
use jack.Daemon.Services.Sound.{IsSound}
use jack.Daemon.Services.Sound.Steps.{register_services-IsSound}
use jack.Daemon.Services.Sound.Removal.{unregister_plugin_unready, unregister_plugin_panics}
use jack.Daemon.Runtime.{
  Processes, Manager, Answer, save_state, finish_enabling, with_services, with_registered,
  enable_loaded, already_enabled, enable_in, handle_plugin_enable, answer_saved, unless,
  without_services, unregister_both, disable_plugin, disable_found, disable_state, disable_in,
  check_dependencies, handle_plugin_disable, load_jack_config, unload_plugin,
}

>>=-never_fails :
    {A B : Type 0} (first : Outcome A) (next : A → Outcome B)
    → ((e : String) → first ≢ err e)
    → ((a : A) (e : String) → next a ≢ err e)
    → (e : String) → (first >>= next) ≢ err e
>>=-never_fails (ok a) next never more e h = more a e h
>>=-never_fails (err m) next never more e h = never m refl
>>=-never_fails (panic m) next never more e h = cc

with_plugins-IsSound :
    (plugins : Map Plugin) (r : ServiceRegistry)
    → IsSound r
    → IsSound (record r { plugins = plugins })
unfolding services_of is_service_ready
with_plugins-IsSound plugins r sound = record {
  has_channel = sound.has_channel;
  fresh = sound.fresh;
  separate = sound.separate;
  signalled = sound.signalled;
  unprovided = sound.unprovided;
  listed = sound.listed;
}

pub register_plugin-IsSound :
    (ns : String) (p : Plugin) (services : List ServiceDescriptor) (r : ServiceRegistry)
    → IsSound r
    → IsSound (register_plugin ns p services r).1
unfolding register_plugin
register_plugin-IsSound ns p services r sound =
    register_services-IsSound ns services _ (with_plugins-IsSound (insert ns p r.plugins) r sound)

-- If the removal of a plugin's services does not panic, none of them was ready.
pub unready_if_ok :
    (ns : String) (r r' : ServiceRegistry)
    → IsSound r
    → unregister_plugin ns r ≡ ok r'
    → (j : String) → lookup j r.service_providers ≡ some ns
    → is_service_ready j r ≡ false
unready_if_ok ns r r' sound e j provided = elim (Bool-cases (is_service_ready j r)) [
  | inl ready ↦
      let panics = unregister_plugin_panics ns j r sound provided ready in
      absurd (ground (arith, e, panics))
  | inr unready ↦ unready
]

pub unregister_plugin-IsSound :
    (ns : String) (r r' : ServiceRegistry) → IsSound r → unregister_plugin ns r ≡ ok r' → IsSound r'
unregister_plugin-IsSound ns r r' sound e =
    let (r'', done, sound'', providers, ready) =
      unregister_plugin_unready ns "" r sound (unready_if_ok ns r r' sound e) in
    let same : r'' ≡ r' = cc in subst IsSound same sound''

-- `UnregisterPlugin` has no error to return.
close-never_fails : (c : ℕ) (r : ServiceRegistry) (e : String) → close c r ≢ err e
unfolding close
close-never_fails c r e h = elim (Bool-cases (r.closed c)) [
  | inl closed ↦ ground (arith, h, closed)
  | inr opened ↦ ground (arith, h, opened)
]

unregister_service-never_fails :
    (name : String) (r : ServiceRegistry) (e : String) → unregister_service name r ≢ err e
unfolding unregister_service
unregister_service-never_fails name r e h = elim (Option-cases (lookup name r.ready_channels)) [
  | inl gone ↦ ground (arith, h, gone)
  | inr (c, there) ↦
      >>=-never_fails (close c _) _ (close-never_fails c _) (λ r' e'. λ q. cc) e (rw there at h)
]

unregister_services-never_fails :
    (names : List String) (r : ServiceRegistry) (e : String) → unregister_services names r ≢ err e
unfolding unregister_services
unregister_services-never_fails [] r e h = cc
unregister_services-never_fails (name ∷ names) r e h =
    >>=-never_fails (unregister_service name r) _ (unregister_service-never_fails name r)
      (λ r' e'. unregister_services-never_fails names r' e') e h

unregister_plugin-never_fails :
    (ns : String) (r : ServiceRegistry) (e : String) → unregister_plugin ns r ≢ err e
unfolding unregister_plugin
unregister_plugin-never_fails ns r e h =
    >>=-never_fails (unregister_services (services_of ns r) r) _
      (unregister_services-never_fails (services_of ns r) r) (λ r' e'. λ q. cc) e h

module _ (host : Processes) where
  abbrev pub IsGood : Manager host → Type 0
  IsGood m = IsConsistent m.registry × IsSound m.services

  -- The registries are in order, if the daemon still runs.
  abbrev pub Good : Answer host → Type 0
  Good (ok message, m) = IsGood m
  Good (err e, m) = IsGood m
  Good (panic e, m) = Unit

  answer_saved-IsGood :
      (e : Error) (message : String) (m : Manager host)
      → IsGood m
      → Good (answer_saved host e message m)
  answer_saved-IsGood none message m g = g
  answer_saved-IsGood (some e) message m g = g

  save_state-IsGood :
      (c : JackConfig) (name : String) (state : PluginState) (message : String) (m : Manager host)
      → IsGood m
      → Good (save_state host c name state message m)
  unfolding save_state
  save_state-IsGood c name state message m g =
      let (e, world) =
        host.save_jack (record c { plugins = some (insert name state (entries c.plugins)) })
          m.world in
      answer_saved-IsGood e message (record m { world = world }) g

  with_services-IsGood :
      (c : JackConfig) (name : String) (p : Plugin) (o : Outcome (Unit {0})) (m : Manager host)
      → IsGood m
      → Good (with_services host c name p o m)
  unfolding with_services finish_enabling
  with_services-IsGood c name p (ok done) m g = save_state-IsGood c name _ _ _ g
  with_services-IsGood c name p (err e) m g =
      (unregister-IsConsistent p.metadata.namespace m.registry g.0, g.1)
  with_services-IsGood c name p (panic e) m g =
      (unregister-IsConsistent p.metadata.namespace m.registry g.0, g.1)

  with_registered-IsGood :
      (c : JackConfig) (name : String) (p : Plugin) (o : Outcome (Unit {0})) (m : Manager host)
      → IsGood m
      → Good (with_registered host c name p o m)
  unfolding with_registered
  with_registered-IsGood c name p (ok done) m g =
      let services = p.provided_services in
      let (o, s) = register_plugin p.metadata.namespace p services m.services in
      with_services-IsGood c name p o (record m { services = s })
        (g.0, register_plugin-IsSound p.metadata.namespace p services m.services g.1)
  with_registered-IsGood c name p (err e) m g = g
  with_registered-IsGood c name p (panic e) m g = g

  enable_loaded-IsGood :
      (c : JackConfig) (name : String) (loaded : Outcome Plugin) (m : Manager host)
      → IsGood m
      → Good (enable_loaded host c name loaded m)
  unfolding enable_loaded
  enable_loaded-IsGood c name (ok p) m g =
      let (o, r) = register p name m.registry in
      with_registered-IsGood c name p o (record m { registry = r })
        (register-IsConsistent p name m.registry g.0, g.1)
  enable_loaded-IsGood c name (err e) m g = g
  enable_loaded-IsGood c name (panic e) m g = tt

  if-IsGood : (b : Bool) (x y : Answer host) → Good x → Good y → Good (if b then x else y)
  if-IsGood true x y g h = g
  if-IsGood false x y g h = h

  enable_in-IsGood :
      (c : Outcome JackConfig) (name : String) (m : Manager host)
      → IsGood m
      → Good (enable_in host c name m)
  unfolding enable_in
  enable_in-IsGood (ok c) name m g =
      let (loaded, world) = host.load_plugin name m.world in
      if-IsGood (already_enabled host name c m.registry) (err "plugin is already enabled", m)
        (enable_loaded host c name loaded (record m { world = world })) g
        (enable_loaded-IsGood c name loaded (record m { world = world }) g)
  enable_in-IsGood (err e) name m g = g
  enable_in-IsGood (panic e) name m g = tt

  without_services-IsGood :
      (c : JackConfig) (name : String) (state : PluginState) (o : Outcome ServiceRegistry)
      (m : Manager host)
      → IsConsistent m.registry
      → ((r : ServiceRegistry) → o ≡ ok r → IsSound r)
      → ((e : String) → o ≢ err e)
      → Good (without_services host c name state o m)
  unfolding without_services
  without_services-IsGood c name state (ok r) m g h never =
      save_state-IsGood c name _ _ _ (g, h r refl)
  without_services-IsGood c name state (err e) m g h never = absurd (never e refl)
  without_services-IsGood c name state (panic e) m g h never = tt

  unless-IsGood :
      (e : Error) (message : String) (next : Manager host → Answer host) (m : Manager host)
      → IsGood m
      → Good (next m)
      → Good (unless host e message next m)
  unless-IsGood none message next m g h = h
  unless-IsGood (some e) message next m g h = g

  disable_found-IsGood :
      (c : JackConfig) (name : String) (state : PluginState) (ns : Option String) (m : Manager host)
      → IsGood m
      → Good (disable_found host c name state ns m)
  unfolding disable_found disable_plugin unregister_both
  disable_found-IsGood c name state none m g = save_state-IsGood c name _ _ _ g
  disable_found-IsGood c name state (some ns) m g = found (get ns m.registry)
    where
      found : (p : Option Plugin) → Good (disable_plugin host c name ns state p m)
      found none = g
      found (some p) =
          let (e, world) = unload_plugin host p m.world in
          unless-IsGood e "failed to unload plugin" (λ m'. unregister_both host c name ns state m')
            (record m { world = world }) g
            (without_services-IsGood c name state (unregister_plugin ns m.services)
              (record m {
                world = world;
                registry = unregister ns m.registry;
                services = interrupted (services_of ns m.services) m.services;
              })
              (unregister-IsConsistent ns m.registry g.0)
              (λ r e. unregister_plugin-IsSound ns m.services r g.1 e)
              (unregister_plugin-never_fails ns m.services))

  disable_in-IsGood :
      (c : Outcome JackConfig) (name : String) (m : Manager host)
      → IsGood m
      → Good (disable_in host c name m)
  unfolding disable_in disable_state
  disable_in-IsGood (ok c) name m g = in_config (lookup name (entries c.plugins))
    where
      in_config : (state : Option PluginState) → Good (disable_state host c name state m)
      in_config none = g
      in_config (some state) =
          let next : Manager host → Answer host =
            λ m'. disable_found host c name state (get_namespace_for_plugin name m'.registry) m' in
          if-IsGood (not state.enabled) (err "plugin is already disabled", m)
            (unless host (check_dependencies name m.registry) "cannot disable plugin" next m) g
            (unless-IsGood (check_dependencies name m.registry) "cannot disable plugin" next m g
              (disable_found-IsGood c name state (get_namespace_for_plugin name m.registry) m g))
  disable_in-IsGood (err e) name m g = g
  disable_in-IsGood (panic e) name m g = tt

-- Enabling and disabling a plugin, whether it succeeds or fails, keeps the plugin registry consistent
-- and the service registry sound; nothing is said of a panic, which ends the daemon.
pub plugin_handlers-IsGood :
    (host : Processes) (name : String) (m : Manager host)
    → IsGood host m
    → Good host (handle_plugin_enable host name m) × Good host (handle_plugin_disable host name m)
unfolding handle_plugin_enable handle_plugin_disable
plugin_handlers-IsGood host name m g =
    let c = load_jack_config host m.world in
    (
      if-IsGood host (name == "") (err "plugin name required", m) (enable_in host c name m) g
          (enable_in-IsGood host c name m g),
      if-IsGood host (name == "") (err "plugin name required", m) (disable_in host c name m) g
          (disable_in-IsGood host c name m g),
    )
