-- ===== src/Daemon/Apply/Round.antt =====
-- One round of the loop over the plugins, for a namespace whose configuration is known.
use mathlib.Core.Path.{subst}
use jack.Base.{
  ℕ, ◌<◌, String, ◌==◌, ◌≡◌, ◌⊎◌, Bool, true, false, Option, none, some, List, refl, sym, ap, ◌∙◌,
  inl, inr, arith, eq_iff, Bool-cases, Option-cases, if◌then◌else◌,
}
use jack.Base.Maps.{has, lookup}
use jack.Base.Outcome.{ok, err, panic}
use jack.Daemon.Config.{Config, interfaces, routes, jack_config, plugin, nil_map}
use jack.Daemon.Plugin.{Plugin}
use jack.Daemon.Host.{Host}
use jack.Daemon.Registry.{PluginRegistry, get_plugin_name_for_namespace}
use jack.Daemon.State.{
  State, Ref, load, get_committed, get_last_applied, set_last_applied, alloc, entry_or_new,
}
use jack.Daemon.State.Isolation.{IsIsolated, committed, last_applied}
use jack.Daemon.Apply.Records.{Grows, Records, shared-Records, fresh-Records, load-fresh}
use jack.Daemon.Apply.Keeps.{failing-rule, mark_services-state}
use jack.Daemon.Apply.{
  Daemon, Result, and_then, shared, fresh, configs_equal, committed_source, put_object, unchanged,
  mark_services, rollback_plugins, roll_back, push_config, with_config, restored,
}

-- What the plugin is given: nil, unless a map is committed.
abbrev pub wanted : Option Config → Config
wanted (some (plugin f)) = plugin f
wanted other = nil_map

module _ (k : String) (s : State) (known : has k s.registry ≡ true) where
  pub get_committed_known : get_committed k s ≡ ok (committed k s)
  unfolding get_committed entry_or_new
  get_committed_known = elim (Option-cases (lookup k s.registry)) [
    | inl missing ↦ absurd (ground (arith, known, missing))
    | inr (entry, there) ↦ rw (there, get_committed, committed, entry_or_new) refl
  ]

  get_last_applied_known : get_last_applied k s ≡ ok (last_applied k s)
  unfolding get_last_applied entry_or_new
  get_last_applied_known = elim (Option-cases (lookup k s.registry)) [
    | inl missing ↦ absurd (ground (arith, known, missing))
    | inr (entry, there) ↦ rw (there, get_last_applied, last_applied, entry_or_new) refl
  ]

load-alloc : (c : Config) (s : State) → load (alloc c s).1 (some (alloc c s).0) ≡ some c
unfolding alloc
load-alloc c s = ground arith

-- A reference of the state has its content after the state grew.
load-Grows :
    {s s' : State} (g : Grows s s') (r : Ref)
    → ((a : ℕ) → r ≡ some a → a < s.next)
    → load s' r ≡ load s r
load-Grows g none old = refl
load-Grows g (some a) old = g.old a (old a refl)

module _ (host : Host) (registry : PluginRegistry) where
  -- The committed configuration is the one that was applied last.
  abbrev pub IsRecorded : String → State → Type 0
  IsRecorded ns s =
      (has ns s.registry ≡ true)
      × (configs_equal host registry (some (wanted (load s (committed ns s))))
            (load s (last_applied ns s))
          ≡ true)

  -- A namespace without a plugin name is passed over.
  abbrev pub IsSettled : String → State → Type 0
  IsSettled ns s = (get_plugin_name_for_namespace ns registry ≡ none) ⊎ IsRecorded ns s

  configs_equal_refl : (c : Config) → configs_equal host registry (some c) (some c) ≡ true
  unfolding configs_equal
  configs_equal_refl c = rw host.deep_equal_refl refl

  -- How the state ends if a round succeeds: as it was, or with the configuration recorded.
  abbrev pub Updated : String → State → State → Type 0
  Updated ns s s' =
      ((s' ≡ s) × IsRecorded ns s)
      ⊎ ((r : Ref) × Records ns r s s' × (load s' r ≡ some (wanted (load s (committed ns s)))))

  pub Updated-IsRecorded :
      (ns : String) (s s' : State) → IsIsolated s → Updated ns s s' → IsRecorded ns s'
  Updated-IsRecorded ns s s' i (inl (same, recorded)) = rw same recorded
  Updated-IsRecorded ns s s' i (inr (r, rec, content)) = (
    rec.known,
    rw
        (
          rec.grows.committed_is ns,
          load-Grows rec.grows (committed ns s) (i.committed_there ns),
          rec.own,
          content,
        )
        (configs_equal_refl _),
  )

  kept-IsRecorded :
      (ns k : String) (s s' : State) (r : Ref)
      → IsIsolated s
      → Records ns r s s'
      → ns == k ≡ false
      → IsRecorded k s
      → IsRecorded k s'
  kept-IsRecorded ns k s s' r i rec ne (known, equal) = (
    rec.grows.known_kept k known,
    rw
        (
          rec.grows.committed_is k,
          load-Grows rec.grows (committed k s) (i.committed_there k),
          rec.others k ne,
          load-Grows rec.grows (last_applied k s) (i.applied_there k),
        )
        equal,
  )

  pub Updated-kept :
      (ns k : String) (s s' : State)
      → IsIsolated s
      → Updated ns s s'
      → IsSettled k s
      → IsSettled k s'
  Updated-kept ns k s s' i up (inl nameless) = inl nameless
  Updated-kept ns k s s' i (inl (same, recorded)) (inr h) = inr (rw same h)
  Updated-kept ns k s s' i (inr (r, rec, content)) (inr h) = elim (Bool-cases (ns == k)) [
    | inl e ↦ inr (
        subst (λ x. IsRecorded x s') ((eq_iff ns k).0 e)
          (Updated-IsRecorded ns s s' i (inr (r, rec, content))))
    | inr ne ↦ inr (kept-IsRecorded ns k s s' r i rec ne h)
  ]

  -- What holds of the state if the call succeeds.
  abbrev pub Succeeds : (State → Type 0) → Result host registry → Type 0
  Succeeds P (ok done, d) = P d.state
  Succeeds P (err m, d) = Unit
  Succeeds P (panic m, d) = Unit

  Succeeds-at :
      (P : State → Type 0) (r : Result host registry) (s : State)
      → r.1.state ≡ s
      → P s
      → Succeeds P r
  Succeeds-at P (ok done, d) s e p = rw e p
  Succeeds-at P (err m, d) s e p = tt
  Succeeds-at P (panic m, d) s e p = tt

  module _ (snapshot : host.Snapshot) (steps : List String) where
    failed-Succeeds :
        (P : State → Type 0) (r : Result host registry)
        (next : Daemon host registry → String × Daemon host registry)
        → Succeeds P (and_then host registry r (λ d. (err (next d).0, (next d).1)))
    failed-Succeeds P (ok done, d) next = tt
    failed-Succeeds P (err m, d) next = tt
    failed-Succeeds P (panic m, d) next = tt

    push_config-Succeeds :
        (P : State → Type 0) (ns : String) (r : Ref) (p : Option Plugin) (d : Daemon host registry)
        → P (set_last_applied ns r d.state)
        → Succeeds P (push_config host registry snapshot steps ns r p d)
    unfolding push_config roll_back
    push_config-Succeeds P ns r none d after = tt
    push_config-Succeeds P ns r (some p) d after =
        let (e, world) = host.apply_config p (load d.state r) d.world in
        let d' = record d { world = world } in
        let recorded = record d' { state = set_last_applied ns r d.state } in
        failing-rule host registry (Succeeds P) e
          (λ text. roll_back host registry snapshot steps "plugin" d')
          (mark_services host registry p.provided_services recorded)
          (λ text.
            failed-Succeeds P (rollback_plugins host registry d')
              (λ d''. ("plugin", restored host registry snapshot steps d'')))
          (Succeeds-at P (mark_services host registry p.provided_services recorded) _
            (mark_services-state host registry p.provided_services recorded) after)

    if-Succeeds :
        (P : State → Type 0) (b : Bool) (d : Daemon host registry) (r : Result host registry)
        → (b ≡ true → P d.state)
        → Succeeds P r
        → Succeeds P (if b then (ok tt, d) else r)
    if-Succeeds P true d r same other = same refl
    if-Succeeds P false d r same other = other

    module _ (ns : String) (p : Option Plugin) (d : Daemon host registry) (i : IsIsolated d.state)
        (known : has ns d.state.registry ≡ true) where
      unchanged_known :
          (c : Option Config)
          → unchanged host registry c d.state (get_last_applied ns d.state)
            ≡ configs_equal host registry c (load d.state (last_applied ns d.state))
      unfolding unchanged
      unchanged_known c = rw (get_last_applied_known ns d.state known) refl

      shared-Succeeds :
          some (wanted (load d.state (committed ns d.state))) ≡ load d.state (committed ns d.state)
          → Succeeds
              (Updated ns d.state)
              (with_config host registry snapshot steps ns p (shared (committed ns d.state)) d)
      unfolding with_config
      shared-Succeeds is_map =
          let r = committed ns d.state in
          let rec = shared-Records ns d.state in
          if-Succeeds (Updated ns d.state)
            (unchanged host registry (load d.state r) d.state (get_last_applied ns d.state)) d
            (push_config host registry snapshot steps ns r p d)
            (λ same. inl (refl, (known, rw is_map (sym (unchanged_known (load d.state r)) ∙ same))))
            (push_config-Succeeds (Updated ns d.state) ns r p d
              (inr (r, rec, load-Grows rec.grows r (i.committed_there ns) ∙ sym is_map)))

      fresh-Succeeds :
          wanted (load d.state (committed ns d.state)) ≡ nil_map
          → Succeeds
              (Updated ns d.state)
              (with_config host registry snapshot steps ns p (fresh nil_map) d)
      unfolding with_config
      fresh-Succeeds no_map =
          let (r, s) = put_object host registry (fresh nil_map) d.state in
          if-Succeeds (Updated ns d.state)
            (unchanged host registry (load s r) d.state (get_last_applied ns d.state)) d
            (push_config host registry snapshot steps ns r p (record d { state = s }))
            (λ same. inl (
              refl,
              (
                known,
                rw no_map (
                    ap (λ c. configs_equal host registry c (load d.state (last_applied ns d.state)))
                      (sym (load-alloc nil_map d.state))
                    ∙ sym (unchanged_known (load s r))
                    ∙ same),
              ),
            ))
            (push_config-Succeeds (Updated ns d.state) ns r p (record d { state = s })
              (unfold alloc in
                inr (
                  some d.state.next,
                  fresh-Records ns nil_map d.state,
                  load-fresh ns nil_map d.state ∙ sym (ap some no_map),
                )))

      -- One round for a known namespace, with what is committed.
      pub committed-Succeeds :
          (c : Option Config)
          → load d.state (committed ns d.state) ≡ c
          → Succeeds (Updated ns d.state) (
              with_config host registry snapshot steps ns p
                (committed_source host registry (committed ns d.state) c)
                d)
      unfolding committed_source
      committed-Succeeds none e = fresh-Succeeds (rw e refl)
      committed-Succeeds (some (plugin f)) e = shared-Succeeds (rw e refl)
      committed-Succeeds (some nil_map) e = shared-Succeeds (rw e refl)
      committed-Succeeds (some (interfaces c)) e = fresh-Succeeds (rw e refl)
      committed-Succeeds (some (routes c)) e = fresh-Succeeds (rw e refl)
      committed-Succeeds (some (jack_config c)) e = fresh-Succeeds (rw e refl)

      -- A recorded configuration is not applied again.
      shared_again :
          some (wanted (load d.state (committed ns d.state))) ≡ load d.state (committed ns d.state)
          → IsRecorded ns d.state
          → with_config host registry snapshot steps ns p (shared (committed ns d.state)) d
            ≡ (ok tt, d)
      unfolding with_config
      shared_again is_map (k, equal) =
          rw (unchanged_known (load d.state (committed ns d.state)), (rw is_map at equal)) refl

      fresh_again :
          wanted (load d.state (committed ns d.state)) ≡ nil_map
          → IsRecorded ns d.state
          → with_config host registry snapshot steps ns p (fresh nil_map) d ≡ (ok tt, d)
      unfolding with_config
      fresh_again no_map (k, equal) =
          rw (load-alloc nil_map d.state, unchanged_known (some nil_map), (rw no_map at equal)) refl

      pub committed_again :
          (c : Option Config)
          → load d.state (committed ns d.state) ≡ c
          → IsRecorded ns d.state
          → with_config host registry snapshot steps ns p
              (committed_source host registry (committed ns d.state) c)
              d
            ≡ (ok tt, d)
      unfolding committed_source
      committed_again none e = fresh_again (rw e refl)
      committed_again (some (plugin f)) e = shared_again (rw e refl)
      committed_again (some nil_map) e = shared_again (rw e refl)
      committed_again (some (interfaces c)) e = fresh_again (rw e refl)
      committed_again (some (routes c)) e = fresh_again (rw e refl)
      committed_again (some (jack_config c)) e = fresh_again (rw e refl)
