-- ===== src/Daemon/Apply/Rollback.antt =====
-- A failed apply ends with the restoring of the snapshot.
use jack.Base.{
  ℕ, String, ◌≡◌, ◌⊎◌, Bool, true, false, ◌||◌, Option, none, some, List, [], ◌∷◌, refl, inl, inr,
  Option-cases, if◌then◌else◌,
}
use jack.Base.Lists.{mem}
use jack.Base.Maps.{Map, entries, lookup}
use jack.Base.Outcome.{Outcome, ok, err, panic, Outcome-cases}
use jack.Types.Network.{Interface, InterfacesConfig, RoutesConfig}
use jack.Daemon.Plugin.{Plugin, ServiceDescriptor}
use jack.Daemon.Host.{Host}
use jack.Daemon.Registry.{PluginRegistry, get, get_plugin_name_for_namespace}
use jack.Daemon.Interfaces.{order_interfaces}
use jack.Daemon.Services.{mark_service_ready}
use jack.Daemon.State.{Ref, get_committed, get_committed_interfaces}
use jack.Daemon.Apply.Keeps.{IsOutcomeOf, source_of-IsOutcomeOf, failing-rule}
use jack.Daemon.Apply.{
  Daemon, Result, and_then, Source, shared, fresh, skip, restored, apply_interfaces,
  ordered_namespaces, put_object, mark_services, rollback_loop, rollback_plugins, roll_back,
  push_config, with_config, with_source, apply_plugin, apply_plugins, apply_found_routes,
  apply_static_routes, apply_from_interfaces, apply_rest, execute_apply_with_rollback, steps_so_far,
  or_zero, marked,
}

module _ (host : Host) (registry : PluginRegistry) (snapshot : host.Snapshot) where
  -- The last thing done was to restore the snapshot, the interfaces included.
  abbrev pub IsRestored : Daemon host registry → Type 0
  IsRestored d =
      (steps : List String) × (before : Daemon host registry) × ((mem "interfaces" steps
          || mem "all" steps)
        ≡ true)
      × (d ≡ restored host registry snapshot steps before)

  -- An error leaves the daemon so.
  abbrev RollsBack : Result host registry → Type 0
  RollsBack (ok done, d) = Unit
  RollsBack (err m, d) = IsRestored d
  RollsBack (panic m, d) = Unit

  and_then-RollsBack :
      (r : Result host registry) (next : Daemon host registry → Result host registry)
      → RollsBack r
      → ((d : Daemon host registry) → RollsBack (next d))
      → RollsBack (and_then host registry r next)
  and_then-RollsBack (ok done, d) next h k = k d
  and_then-RollsBack (err m, d) next h k = h
  and_then-RollsBack (panic m, d) next h k = h

  apply_interfaces-RollsBack :
      (m : Map Interface) (names : List String) (d : Daemon host registry)
      → RollsBack (apply_interfaces host registry snapshot (steps_so_far host registry) m names d)
  unfolding apply_interfaces
  apply_interfaces-RollsBack m [] d = tt
  apply_interfaces-RollsBack m (name ∷ names) d =
      let steps = steps_so_far host registry in
      let (e, world) = host.apply_interface name (or_zero (lookup name m)) d.world in
      let d' = record d { world = world } in
      failing-rule host registry RollsBack e
        (λ text. (err "interface", restored host registry snapshot steps d'))
        (apply_interfaces host registry snapshot steps m names d')
        (λ text. (steps, d', unfold mem in refl, refl)) (apply_interfaces-RollsBack m names d')

  -- What never returns an error.
  abbrev Errorless : Result host registry → Type 0
  Errorless (ok done, d) = Unit
  Errorless (err m, d) = ⊥
  Errorless (panic m, d) = Unit

  rollback_loop-Errorless :
      (names : List String) (d : Daemon host registry)
      → Errorless (rollback_loop host registry names d)
  unfolding rollback_loop
  rollback_loop-Errorless [] d = tt
  rollback_loop-Errorless (ns ∷ names) d = elim (Option-cases (get ns registry)) [
    | inl missing ↦ rw (missing, rollback_loop) tt
    | inr (p, there) ↦ rw (there, rollback_loop) (rollback_loop-Errorless names _)
  ]

  mark_services-Errorless :
      (services : List ServiceDescriptor) (d : Daemon host registry)
      → Errorless (mark_services host registry services d)
  unfolding mark_services
  mark_services-Errorless [] d = tt
  mark_services-Errorless (s ∷ ss) d = elim (Outcome-cases (mark_service_ready s.name d.services)) [
    | inl (r, done) ↦ rw (done, mark_services) (mark_services-Errorless ss _)
    | inr (inl (m, failed)) ↦ rw (failed, mark_services) (mark_services-Errorless ss d)
    | inr (inr (m, failed)) ↦ rw (failed, mark_services) tt
  ]

  Errorless-RollsBack : (r : Result host registry) → Errorless r → RollsBack r
  Errorless-RollsBack (ok done, d) h = tt
  Errorless-RollsBack (err m, d) h = absurd h
  Errorless-RollsBack (panic m, d) h = tt

  roll_back-RollsBack :
      (steps : List String) (text : String) (d : Daemon host registry)
      → (mem "interfaces" steps || mem "all" steps) ≡ true
      → RollsBack (roll_back host registry snapshot steps text d)
  unfolding roll_back rollback_plugins
  roll_back-RollsBack steps text d covers =
      and_then-RollsBack (rollback_plugins host registry d)
        (λ d'. (err text, restored host registry snapshot steps d'))
        (Errorless-RollsBack (rollback_plugins host registry d) (rollback_loop-Errorless _ d))
        (λ d'. (steps, d', covers, refl))

  push_config-RollsBack :
      (steps : List String) (ns : String) (r : Ref) (p : Option Plugin) (d : Daemon host registry)
      → (mem "interfaces" steps || mem "all" steps) ≡ true
      → RollsBack (push_config host registry snapshot steps ns r p d)
  unfolding push_config
  push_config-RollsBack steps ns r none d covers = tt
  push_config-RollsBack steps ns r (some p) d covers =
      failing-rule host registry RollsBack _ _ _
        (λ text. roll_back-RollsBack steps "plugin" _ covers)
        (Errorless-RollsBack (mark_services host registry p.provided_services _)
          (mark_services-Errorless p.provided_services _))

  if-RollsBack :
      (b : Bool) (d : Daemon host registry) (r : Result host registry)
      → RollsBack r
      → RollsBack (if b then (ok tt, d) else r)
  if-RollsBack true d r h = tt
  if-RollsBack false d r h = h

  with_source-RollsBack :
      (steps : List String) (ns : String) (p : Option Plugin)
      (source : Outcome (Source host registry)) (d : Daemon host registry)
      → (mem "interfaces" steps || mem "all" steps) ≡ true
      → IsOutcomeOf host registry ns d.state source
      → RollsBack (with_source host registry snapshot steps ns p source d)
  unfolding with_source with_config
  with_source-RollsBack steps ns p (ok skip) d covers good = tt
  with_source-RollsBack steps ns p (ok (shared r)) d covers good =
      if-RollsBack _ d _ (push_config-RollsBack steps ns r p d covers)
  with_source-RollsBack steps ns p (ok (fresh c)) d covers good =
      let (r, s) = put_object host registry (fresh c) d.state in
      if-RollsBack _ d _ (push_config-RollsBack steps ns r p (record d { state = s }) covers)
  with_source-RollsBack steps ns p (err m) d covers good = absurd good
  with_source-RollsBack steps ns p (panic m) d covers good = tt

  apply_plugin-RollsBack :
      (steps : List String) (ns : String) (d : Daemon host registry)
      → (mem "interfaces" steps || mem "all" steps) ≡ true
      → RollsBack (apply_plugin host registry snapshot steps ns d)
  unfolding apply_plugin
  apply_plugin-RollsBack steps ns d covers =
      elim (Option-cases (get_plugin_name_for_namespace ns registry)) [
        | inl missing ↦ rw (missing, apply_plugin) tt
        | inr (name, there) ↦
            rw (there, apply_plugin)
              (with_source-RollsBack steps ns (get ns registry) _ d covers (
                source_of-IsOutcomeOf host registry ns name (get ns registry) d
                  (get_committed ns d.state) refl))
      ]

  apply_plugins-RollsBack :
      (steps names : List String) (d : Daemon host registry)
      → (mem "interfaces" steps || mem "all" steps) ≡ true
      → RollsBack (apply_plugins host registry snapshot steps names d)
  unfolding apply_plugins
  apply_plugins-RollsBack steps [] d covers = tt
  apply_plugins-RollsBack steps (ns ∷ names) d covers =
      and_then-RollsBack (apply_plugin host registry snapshot steps ns d)
        (λ d'. apply_plugins host registry snapshot steps names d')
        (apply_plugin-RollsBack steps ns d covers)
        (λ d'. apply_plugins-RollsBack steps names d' covers)

  found_routes-RollsBack :
      (found : Outcome RoutesConfig) (d : Daemon host registry)
      → RollsBack (apply_found_routes host registry snapshot found d)
  unfolding apply_found_routes
  found_routes-RollsBack (ok c) d =
      let (e, world) = host.apply_routes c d.world in
      let d' = record d { world = world } in
      failing-rule host registry RollsBack e
        (λ text. roll_back host registry snapshot ("all" ∷ []) "routes" d') (ok tt, d')
        (λ text. roll_back-RollsBack ("all" ∷ []) "routes" d' (unfold mem in refl)) tt
  found_routes-RollsBack (err m) d = tt
  found_routes-RollsBack (panic m) d = tt

  apply_rest-RollsBack :
      (d : Daemon host registry) → RollsBack (apply_rest host registry snapshot d)
  unfolding apply_rest apply_static_routes
  apply_rest-RollsBack d =
      let names = ordered_namespaces host registry d in
      let steps = steps_so_far host registry in
      and_then-RollsBack (apply_plugins host registry snapshot steps names d)
        (λ d'. apply_static_routes host registry snapshot d')
        (apply_plugins-RollsBack steps names d (unfold mem in refl))
        (λ d'. found_routes-RollsBack (host.load_routes d'.world) d')

  apply_from_interfaces-RollsBack :
      (c : Option InterfacesConfig) (d : Daemon host registry)
      → RollsBack (apply_from_interfaces host registry snapshot c d)
  apply_from_interfaces-RollsBack none d = tt
  apply_from_interfaces-RollsBack (some c) d =
      let m = entries c.interfaces in
      and_then-RollsBack
        (apply_interfaces host registry snapshot (steps_so_far host registry) m (order_interfaces m)
          d)
        (λ d'. apply_rest host registry snapshot d')
        (apply_interfaces-RollsBack m (order_interfaces m) d) apply_rest-RollsBack

  -- The error is that of the first step, or the snapshot was restored.
  abbrev Ends : Result host registry → Type 0
  Ends (ok done, d) = Unit
  Ends (err m, d) = (m ≡ "ip forwarding") ⊎ IsRestored d
  Ends (panic m, d) = Unit

  RollsBack-Ends : (r : Result host registry) → RollsBack r → Ends r
  RollsBack-Ends (ok done, d) h = tt
  RollsBack-Ends (err m, d) h = inr h
  RollsBack-Ends (panic m, d) h = tt

  execute-Ends :
      (now : ℕ) (d : Daemon host registry)
      → Ends (execute_apply_with_rollback host registry snapshot now d)
  unfolding execute_apply_with_rollback
  execute-Ends now d =
      let d' = marked host registry now d in
      let (e, world) = host.enable_ip_forwarding d'.world in
      let d'' = record d' { world = world } in
      let c = get_committed_interfaces d''.state in
      failing-rule host registry Ends e (λ text. (err "ip forwarding", d''))
        (apply_from_interfaces host registry snapshot c d'') (λ text. inl refl)
        (RollsBack-Ends (apply_from_interfaces host registry snapshot c d'')
          (apply_from_interfaces-RollsBack c d''))

-- An apply that fails, unless it is at its first step, where nothing was applied, ends with the
-- restoring of the snapshot, the interfaces included.
pub failed_apply_restores :
    (host : Host) (registry : PluginRegistry) (snapshot : host.Snapshot) (now : ℕ)
    (d d' : Daemon host registry) (m : String)
    → execute_apply_with_rollback host registry snapshot now d ≡ (err m, d')
    → (m ≡ "ip forwarding") ⊎ IsRestored host registry snapshot d'
failed_apply_restores host registry snapshot now d d' m e =
    let ends = execute-Ends host registry snapshot now d in (rw e at ends)
