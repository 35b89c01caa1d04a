-- ===== src/Daemon/Runtime/Disabled.antt =====
-- What disabling a plugin guarantees.
use mathlib.Core.Path.{subst}
use jack.Base.{
  String, ◌==◌, ◌≡◌, ◌≢◌, Bool, true, false, not, Option, none, some, List, [], ◌∷◌, refl, ◌∙◌, inl,
  inr, arith, eq_iff, Bool-cases, if◌then◌else◌,
}
use jack.Base.Lists.{mem}
use jack.Base.Maps.{Map, lookup, entries, lookup-delete, AllEntries}
use jack.Base.Outcome.{Outcome, ok, err, panic}
use jack.Types.Network.{JackConfig, PluginState}
use jack.Validation.{Error}
use jack.Daemon.Plugin.{Plugin}
use jack.Daemon.Registry.{PluginRegistry, unregister, get, get_namespace_for_plugin}
use jack.Daemon.Services.{ServiceRegistry, unregister_plugin, interrupted, services_of}
use jack.Daemon.Services.Sound.{IsSound, provider_is}
use jack.Daemon.Services.Sound.Removal.{unregister_plugin_unready}
use jack.Daemon.Runtime.Keeps.{unready_if_ok}
use jack.Daemon.Runtime.{
  Processes, Manager, Answer, dependents, check_dependencies, unless, answer_saved, save_state,
  without_services, unregister_both, disable_plugin, disable_found, disable_state, disable_in,
  handle_plugin_disable, load_jack_config, unload_plugin,
}

-- No plugin of the map names this one as a dependency.
abbrev pub IsFreeOf : String → String → Plugin → Type 0
IsFreeOf name ns p = mem name p.metadata.dependencies ≡ false

no_dependents :
    (name : String) (m : Map Plugin) → dependents name m ≡ [] → AllEntries (IsFreeOf name) m
unfolding dependents
no_dependents name [] e = tt
no_dependents name ((ns, p) ∷ m) e = elim (Bool-cases (mem name p.metadata.dependencies)) [
  | inl depends ↦ absurd (ground (arith, e, depends))
  | inr free ↦ (free, no_dependents name m (ground (arith, e, free)))
]

unchecked :
    (name : String) (r : PluginRegistry)
    → check_dependencies name r ≡ none
    → dependents name r.plugins ≡ []
unchecked name r e = go (dependents name r.plugins) e
  where
    go :
        (ds : List String)
        → (elim ds as (λ x. Error) [ [] ↦ none | ◌∷◌ ns rest ↦ some "cannot disable plugin" ])
          ≡ none
        → ds ≡ []
    go [] e = refl
    go (ns ∷ rest) e = cc

-- No service is provided by the namespace, and no plugin is registered under it.
abbrev pub IsGone : String → PluginRegistry → ServiceRegistry → Type 0
IsGone ns r services =
    (get ns r ≡ none) × ((k : String) → lookup k services.service_providers ≢ some ns)

IsGone-unregister :
    (ns : String) (r : PluginRegistry) (s s' : ServiceRegistry)
    → IsSound s
    → unregister_plugin ns s ≡ ok s'
    → IsGone ns (unregister ns r) s'
unfolding get unregister
IsGone-unregister ns r s s' sound e = (
  lookup-delete ns ns r.plugins ∙ ground (arith, eq_iff ns ns),
  λ k provided.
      let (s'', done, sound'', providers, ready) =
        unregister_plugin_unready ns k s sound (unready_if_ok ns s s' sound e) in
      ground
        (arith, done, e, providers, provided, eq_iff ns ns, left (lookup k s.service_providers)),
)
  where
    left : (p : Option String) → (if provider_is ns p then none else p) ≢ some ns
    left none e = cc
    left (some q) e = ground (arith, e, eq_iff q ns)

module _ (host : Processes) where
  -- What holds of the daemon if the answer is a success.
  abbrev Succeeds : (Manager host → Type 0) → Answer host → Type 0
  Succeeds P (ok message, m) = P m
  Succeeds P (err e, m) = Unit
  Succeeds P (panic e, m) = Unit

  -- For a plugin that was loaded under a namespace.
  abbrev pub After : String → PluginRegistry → Manager host → Type 0
  After name before m =
      AllEntries (IsFreeOf name) before.plugins
      × ((ns : String)
          → get_namespace_for_plugin name before ≡ some ns
          → IsGone ns m.registry m.services)

  answer_saved-Succeeds :
      (P : Manager host → Type 0) (e : Error) (message : String) (m : Manager host)
      → P m
      → Succeeds P (answer_saved host e message m)
  answer_saved-Succeeds P none message m p = p
  answer_saved-Succeeds P (some e) message m p = tt

  unless-Succeeds :
      (P : Manager host → Type 0) (e : Error) (message : String) (next : Manager host → Answer host)
      (m : Manager host)
      → (e ≡ none → Succeeds P (next m))
      → Succeeds P (unless host e message next m)
  unless-Succeeds P none message next m h = h refl
  unless-Succeeds P (some e) message next m h = tt

  if-Succeeds :
      (P : Manager host → Type 0) (b : Bool) (e : String) (m : Manager host) (y : Answer host)
      → Succeeds P y
      → Succeeds P (if b then (err e, m) else y)
  if-Succeeds P true e m y h = tt
  if-Succeeds P false e m y h = h

  module _ (name : String) (m : Manager host) (sound : IsSound m.services)
      (free : AllEntries (IsFreeOf name) m.registry.plugins) where
    without-Succeeds :
        (c : JackConfig) (state : PluginState) (ns : String) (world : host.World)
        (o : Outcome ServiceRegistry)
        → get_namespace_for_plugin name m.registry ≡ some ns
        → unregister_plugin ns m.services ≡ o
        → Succeeds (After name m.registry) (
            without_services host c name state o (record m {
              world = world;
              registry = unregister ns m.registry;
              services = interrupted (services_of ns m.services) m.services;
            }))
    unfolding without_services save_state
    without-Succeeds c state ns world (ok s) named e =
        answer_saved-Succeeds (After name m.registry) _ _ _ (
          free,
          λ ns' named'.
              let same : ns ≡ ns' = cc in
              subst (λ x. IsGone x (unregister ns m.registry) s) same
                (IsGone-unregister ns m.registry m.services s sound e),
        )
    without-Succeeds c state ns world (err x) named e = tt
    without-Succeeds c state ns world (panic x) named e = tt

    found-Succeeds :
        (c : JackConfig) (state : PluginState) (found : Option String)
        → get_namespace_for_plugin name m.registry ≡ found
        → Succeeds (After name m.registry) (disable_found host c name state found m)
    unfolding disable_found disable_plugin unregister_both save_state
    found-Succeeds c state none missing =
        answer_saved-Succeeds (After name m.registry) _ _ _
          (free, λ ns named. absurd (ground (arith, named, missing)))
    found-Succeeds c state (some ns) named = loaded (get ns m.registry)
      where
        loaded :
            (p : Option Plugin)
            → Succeeds (After name m.registry) (disable_plugin host c name ns state p m)
        loaded none = tt
        loaded (some p) =
            let (e, world) = unload_plugin host p m.world in
            unless-Succeeds (After name m.registry) e "failed to unload plugin"
              (λ m'. unregister_both host c name ns state m') (record m { world = world })
              (λ unloaded.
                without-Succeeds c state ns world (unregister_plugin ns m.services) named refl)

  in-Succeeds :
      (c : Outcome JackConfig) (name : String) (m : Manager host)
      → IsSound m.services
      → Succeeds (After name m.registry) (disable_in host c name m)
  unfolding disable_in disable_state
  in-Succeeds (ok c) name m sound = in_config (lookup name (entries c.plugins))
    where
      in_config :
          (state : Option PluginState)
          → Succeeds (After name m.registry) (disable_state host c name state m)
      in_config none = tt
      in_config (some state) =
          let next : Manager host → Answer host =
            λ m'. disable_found host c name state (get_namespace_for_plugin name m'.registry) m' in
          let e = check_dependencies name m.registry in
          if-Succeeds (After name m.registry) (not state.enabled) "plugin is already disabled" m
            (unless host e "cannot disable plugin" next m)
            (unless-Succeeds (After name m.registry) e "cannot disable plugin" next m (λ unused.
              found-Succeeds name m sound
                (no_dependents name m.registry.plugins (unchecked name m.registry unused)) c state
                (get_namespace_for_plugin name m.registry) refl))
  in-Succeeds (err e) name m sound = tt
  in-Succeeds (panic e) name m sound = tt

-- If disabling a plugin succeeds, no registered plugin named it as a dependency, and the namespace
-- that it was loaded under, if it was, has neither a plugin nor a service any more.
pub handle_plugin_disable_lem :
    (host : Processes) (name message : String) (m m' : Manager host)
    → IsSound m.services
    → handle_plugin_disable host name m ≡ (ok message, m')
    → After host name m.registry m'
unfolding handle_plugin_disable
handle_plugin_disable_lem host name message m m' sound e =
    let done =
      if-Succeeds host (After host name m.registry) (name == "") "plugin name required" m
        (disable_in host (load_jack_config host m.world) name m)
        (in-Succeeds host (load_jack_config host m.world) name m sound) in
    (rw e at done)
