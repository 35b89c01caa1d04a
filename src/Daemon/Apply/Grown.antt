-- ===== src/Daemon/Apply/Grown.antt =====
-- Every branch of an apply leaves what is committed and what is pending.
use jack.Base.{
  ℕ, ◌<◌, String, ◌≡◌, Option, none, some, List, [], ◌∷◌, refl, inl, inr, Bool-cases, Option-cases,
}
use jack.Base.Maps.{entries}
use jack.Base.Outcome.{Outcome, ok, err, panic, Outcome-cases}
use jack.Types.Network.{InterfacesConfig, RoutesConfig}
use jack.Daemon.Plugin.{Plugin}
use jack.Daemon.Host.{Host}
use jack.Daemon.Registry.{PluginRegistry, get, get_plugin_name_for_namespace}
use jack.Daemon.Interfaces.{order_interfaces}
use jack.Daemon.State.{State, Ref, load, get_committed, get_last_applied, set_last_applied, alloc}
use jack.Daemon.State.Isolation.{IsIsolated, committed, pending}
use jack.Daemon.Apply.Records.{
  Grows, Grows-refl, Grows-trans, shared-Records, fresh-Records, alloc-Grows,
}
use jack.Daemon.Apply.Keeps.{
  IsSourceOf, IsOutcomeOf, source_of-IsOutcomeOf, failing-rule, apply_interfaces-state,
  mark_services-state, roll_back-state,
}
use jack.Daemon.Apply.{
  Daemon, Result, and_then, Source, shared, fresh, skip, apply_interfaces, ordered_namespaces,
  unchanged, mark_services, roll_back, push_config, with_config, with_source, apply_plugin,
  apply_plugins, apply_found_routes, apply_static_routes, apply_from_interfaces, apply_rest,
  execute_apply_with_rollback, steps_so_far,
}

module _ (host : Host) (registry : PluginRegistry) (snapshot : host.Snapshot) where
  abbrev Extends : State → Result host registry → Type 0
  Extends s result = Grows s result.1.state

  Grows-at : {s t u : State} → u ≡ t → Grows s t → Grows s u
  Grows-at e g = rw e g

  and_then-Extends :
      (s : State) (r : Result host registry) (next : Daemon host registry → Result host registry)
      → Extends s r
      → ((d : Daemon host registry) → Grows s d.state → Extends s (next d))
      → Extends s (and_then host registry r next)
  and_then-Extends s (ok done, d) next g k = k d g
  and_then-Extends s (err m, d) next g k = g
  and_then-Extends s (panic m, d) next g k = g

  -- The object for the configuration is recorded or dropped.
  push_config-Extends :
      (steps : List String) (ns : String) (s : State) (r : Ref) (p : Option Plugin)
      (d : Daemon host registry)
      → Grows s d.state
      → Grows s (set_last_applied ns r d.state)
      → Extends s (push_config host registry snapshot steps ns r p d)
  unfolding push_config
  push_config-Extends steps ns s r none d before after = before
  push_config-Extends steps ns s r (some p) d before after =
      let (e, world) = host.apply_config p (load d.state r) d.world in
      let d' = record d { world = world } in
      failing-rule host registry (Extends s) e
        (λ text. roll_back host registry snapshot steps "plugin" d')
        (mark_services host registry p.provided_services
          (record d' { state = set_last_applied ns r d.state }))
        (λ text. Grows-at (roll_back-state host registry snapshot steps "plugin" d') before)
        (Grows-at (mark_services-state host registry p.provided_services _) after)

  with_config-Extends :
      (steps : List String) (ns : String) (p : Option Plugin) (source : Source host registry)
      (d : Daemon host registry)
      → IsSourceOf host registry ns d.state source
      → Extends d.state (with_config host registry snapshot steps ns p source d)
  unfolding with_config alloc
  with_config-Extends steps ns p skip d good = Grows-refl d.state
  with_config-Extends steps ns p (shared r) d good =
      elim (Bool-cases
        (unchanged host registry (load d.state r) d.state (get_last_applied ns d.state))) [
          | inl same ↦ rw (same, with_config) (Grows-refl d.state)
          | inr new ↦
              rw (new, with_config)
                (push_config-Extends steps ns d.state r p d (Grows-refl d.state)
                  (rw good (shared-Records ns d.state).grows))
        ]
  with_config-Extends steps ns p (fresh c) d good =
      elim (Bool-cases (
        unchanged host registry (load (alloc c d.state).1 (some (alloc c d.state).0)) d.state
          (get_last_applied ns d.state))) [
            | inl same ↦ rw (same, with_config) (Grows-refl d.state)
            | inr new ↦
                rw (new, with_config)
                  (push_config-Extends steps ns d.state _ p _ (alloc-Grows c d.state)
                    (fresh-Records ns c d.state).grows)
          ]

  with_source-Extends :
      (steps : List String) (ns : String) (p : Option Plugin)
      (source : Outcome (Source host registry)) (d : Daemon host registry)
      → IsOutcomeOf host registry ns d.state source
      → Extends d.state (with_source host registry snapshot steps ns p source d)
  unfolding with_source
  with_source-Extends steps ns p (ok source) d good = with_config-Extends steps ns p source d good
  with_source-Extends steps ns p (err m) d good = absurd good
  with_source-Extends steps ns p (panic m) d good = Grows-refl d.state

  pub apply_plugin-Extends :
      (steps : List String) (ns : String) (d : Daemon host registry)
      → Extends d.state (apply_plugin host registry snapshot steps ns d)
  unfolding apply_plugin
  apply_plugin-Extends steps ns d =
      elim (Option-cases (get_plugin_name_for_namespace ns registry)) [
        | inl missing ↦ rw (missing, apply_plugin) (Grows-refl d.state)
        | inr (name, there) ↦
            rw (there, apply_plugin)
              (with_source-Extends steps ns (get ns registry) _ d (
                source_of-IsOutcomeOf host registry ns name (get ns registry) d
                  (get_committed ns d.state) refl))
      ]

  pub apply_plugins-Extends :
      (steps names : List String) (d : Daemon host registry)
      → Extends d.state (apply_plugins host registry snapshot steps names d)
  unfolding apply_plugins
  apply_plugins-Extends steps [] d = Grows-refl d.state
  apply_plugins-Extends steps (ns ∷ names) d =
      and_then-Extends d.state _ _ (apply_plugin-Extends steps ns d)
        (λ d' g. Grows-trans g (apply_plugins-Extends steps names d'))

  apply_static_routes-Extends :
      (d : Daemon host registry) → Extends d.state (apply_static_routes host registry snapshot d)
  unfolding apply_static_routes apply_found_routes
  apply_static_routes-Extends d = elim (Outcome-cases (host.load_routes d.world)) [
    | inl (c, found) ↦ rw (found, apply_static_routes, apply_found_routes) (applied c)
    | inr (inl (m, failed)) ↦
        rw (failed, apply_static_routes, apply_found_routes) (Grows-refl d.state)
    | inr (inr (m, failed)) ↦
        rw (failed, apply_static_routes, apply_found_routes) (Grows-refl d.state)
  ]
    where
      applied :
          (c : RoutesConfig) → Extends d.state (apply_found_routes host registry snapshot (ok c) d)
      applied c =
          let (e, world) = host.apply_routes c d.world in
          let d' = record d { world = world } in
          failing-rule host registry (Extends d.state) e
            (λ text. roll_back host registry snapshot ("all" ∷ []) "routes" d') (ok tt, d')
            (λ text.
              Grows-at (roll_back-state host registry snapshot ("all" ∷ []) "routes" d')
                (Grows-refl d.state))
            (Grows-refl d.state)

  apply_rest-Extends :
      (d : Daemon host registry) → Extends d.state (apply_rest host registry snapshot d)
  unfolding apply_rest
  apply_rest-Extends d =
      let names = ordered_namespaces host registry d in
      let steps = steps_so_far host registry in
      and_then-Extends d.state (apply_plugins host registry snapshot steps names d)
        (λ d'. apply_static_routes host registry snapshot d') (apply_plugins-Extends steps names d)
        (λ d' g. Grows-trans g (apply_static_routes-Extends d'))

  apply_from_interfaces-Extends :
      (c : Option InterfacesConfig) (d : Daemon host registry)
      → Extends d.state (apply_from_interfaces host registry snapshot c d)
  apply_from_interfaces-Extends none d = Grows-refl d.state
  apply_from_interfaces-Extends (some c) d =
      let m = entries c.interfaces in
      let steps = steps_so_far host registry in
      and_then-Extends d.state
        (apply_interfaces host registry snapshot steps m (order_interfaces m) d)
        (λ d'. apply_rest host registry snapshot d')
        (Grows-at (apply_interfaces-state host registry snapshot steps m (order_interfaces m) d)
          (Grows-refl d.state))
        (λ d' g. Grows-trans g (apply_rest-Extends d'))

  execute-Extends :
      (now : ℕ) (d : Daemon host registry)
      → Extends d.state (execute_apply_with_rollback host registry snapshot now d)
  unfolding execute_apply_with_rollback
  execute-Extends now d =
      failing-rule host registry (Extends d.state) _ _ _ (λ text. Grows-refl d.state)
        (apply_from_interfaces-Extends _ _)

-- An apply, whether it succeeds, fails or panics, leaves every committed and every pending
-- configuration as it was, and keeps the references isolated, if they were.
pub execute_keeps_configurations :
    (host : Host) (registry : PluginRegistry) (snapshot : host.Snapshot) (now : ℕ)
    (d : Daemon host registry) (k : String)
    → IsIsolated d.state
    → let s = d.state in
      let s' = (execute_apply_with_rollback host registry snapshot now d).1.state in
      (load s' (committed k s') ≡ load s (committed k s))
      × (load s' (pending k s') ≡ load s (pending k s))
      × IsIsolated s'
execute_keeps_configurations host registry snapshot now d k isolated =
    let g = execute-Extends host registry snapshot now d in
    (
      same g (committed k d.state) (g.committed_is k) (isolated.committed_there k),
      same g (pending k d.state) (g.pending_is k) (isolated.pending_there k),
      g.isolated isolated,
    )
  where
    same :
        {s s' : State} (g : Grows s s') (r : Ref) {r' : Ref}
        → r' ≡ r
        → ((a : ℕ) → r ≡ some a → a < s.next)
        → load s' r' ≡ load s r
    same g none e old = rw e refl
    same g (some a) e old = rw e (g.old a (old a refl))
