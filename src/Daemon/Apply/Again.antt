-- ===== src/Daemon/Apply/Again.antt =====
-- The loop over the plugins, run again after it succeeded, finds every plugin up to date.
use jack.Base.{String, ◌≡◌, true, List, [], ◌∷◌, refl, inl, inr, Option-cases}
use jack.Base.Maps.{has}
use jack.Base.Outcome.{ok, err, panic}
use jack.Daemon.Host.{Host}
use jack.Daemon.Registry.{PluginRegistry, get, get_plugin_name_for_namespace}
use jack.Daemon.State.{State, load}
use jack.Daemon.State.Isolation.{IsIsolated, committed}
use jack.Daemon.Apply.Records.{Grows}
use jack.Daemon.Apply.Grown.{apply_plugin-Extends, apply_plugins-Extends}
use jack.Daemon.Apply.Round.{
  get_committed_known, IsSettled, Updated, Updated-IsRecorded, Updated-kept, Succeeds,
  committed-Succeeds, committed_again,
}
use jack.Daemon.Apply.{
  Daemon, Result, and_then, source_of, with_config, with_source, apply_plugin, apply_plugins,
}

module _ (host : Host) (registry : PluginRegistry) (snapshot : host.Snapshot)
    (steps : List String) where
  -- Every namespace has an entry in the state.
  abbrev pub AllKnown : List String → State → Type 0
  AllKnown [] s = Unit
  AllKnown (ns ∷ names) s = (has ns s.registry ≡ true) × AllKnown names s

  abbrev AllSettled : List String → State → Type 0
  AllSettled [] s = Unit
  AllSettled (ns ∷ names) s = IsSettled host registry ns s × AllSettled names s

  -- A round settles its namespace and unsettles none.
  abbrev Settles : String → State → State → Type 0
  Settles ns s s' =
      IsSettled host registry ns s'
      × ((k : String) → IsSettled host registry k s → IsSettled host registry k s')

  Updated-Settles :
      (ns : String) (s s' : State) → IsIsolated s → Updated host registry ns s s' → Settles ns s s'
  Updated-Settles ns s s' i up = (
    inr (Updated-IsRecorded host registry ns s s' i up),
    λ k h. Updated-kept host registry ns k s s' i up h,
  )

  Succeeds-map :
      (P Q : State → Type 0) (r : Result host registry)
      → ((s : State) → P s → Q s)
      → Succeeds host registry P r
      → Succeeds host registry Q r
  Succeeds-map P Q (ok done, d) f h = f d.state h
  Succeeds-map P Q (err m, d) f h = tt
  Succeeds-map P Q (panic m, d) f h = tt

  and_then-Succeeds :
      (P Q : State → Type 0) (s : State) (r : Result host registry)
      (next : Daemon host registry → Result host registry)
      → Grows s r.1.state
      → Succeeds host registry P r
      → ((d : Daemon host registry)
          → Grows s d.state
          → P d.state
          → Succeeds host registry Q (next d))
      → Succeeds host registry Q (and_then host registry r next)
  and_then-Succeeds P Q s (ok done, d) next g h k = k d g h
  and_then-Succeeds P Q s (err m, d) next g h k = tt
  and_then-Succeeds P Q s (panic m, d) next g h k = tt

  apply_plugin-Succeeds :
      (ns : String) (d : Daemon host registry)
      → IsIsolated d.state
      → has ns d.state.registry ≡ true
      → Succeeds host registry (Settles ns d.state) (apply_plugin host registry snapshot steps ns d)
  unfolding apply_plugin source_of with_source
  apply_plugin-Succeeds ns d i known =
      elim (Option-cases (get_plugin_name_for_namespace ns registry)) [
        | inl nameless ↦ rw (nameless, apply_plugin) (inl nameless, λ k h. h)
        | inr (name, there) ↦
            rw (there, apply_plugin, get_committed_known ns d.state known)
              (Succeeds-map (Updated host registry ns d.state) (Settles ns d.state)
                (with_config host registry snapshot steps ns (get ns registry) _ d)
                (λ s' up. Updated-Settles ns d.state s' i up)
                (committed-Succeeds host registry snapshot steps ns (get ns registry) d i known
                  (load d.state (committed ns d.state)) refl))
      ]

  AllKnown-Grows :
      (names : List String) (s s' : State) → Grows s s' → AllKnown names s → AllKnown names s'
  AllKnown-Grows [] s s' g h = tt
  AllKnown-Grows (ns ∷ names) s s' g (known, h) =
      (g.known_kept ns known, AllKnown-Grows names s s' g h)

  apply_plugins-Succeeds :
      (names : List String) (d : Daemon host registry)
      → IsIsolated d.state
      → AllKnown names d.state
      → Succeeds host registry
          (λ s'.
            AllSettled names s'
            × ((k : String) → IsSettled host registry k d.state → IsSettled host registry k s'))
          (apply_plugins host registry snapshot steps names d)
  unfolding apply_plugins
  apply_plugins-Succeeds [] d i known = (tt, λ k h. h)
  apply_plugins-Succeeds (ns ∷ names) d i (known, h) =
      and_then-Succeeds (Settles ns d.state) _ d.state
        (apply_plugin host registry snapshot steps ns d)
        (λ d'. apply_plugins host registry snapshot steps names d')
        (apply_plugin-Extends host registry snapshot steps ns d)
        (apply_plugin-Succeeds ns d i known)
        (λ d' g (settled, kept).
          Succeeds-map _ _ (apply_plugins host registry snapshot steps names d')
            (λ s' (all, more). ((more ns settled, all), λ k before. more k (kept k before)))
            (apply_plugins-Succeeds names d' (g.isolated i)
              (AllKnown-Grows names d.state d'.state g h)))

  settled_again :
      (ns : String) (d : Daemon host registry)
      → IsIsolated d.state
      → has ns d.state.registry ≡ true
      → IsSettled host registry ns d.state
      → apply_plugin host registry snapshot steps ns d ≡ (ok tt, d)
  unfolding apply_plugin source_of with_source
  settled_again ns d i known (inl nameless) = rw (nameless, apply_plugin) refl
  settled_again ns d i known (inr recorded) =
      elim (Option-cases (get_plugin_name_for_namespace ns registry)) [
        | inl nameless ↦ rw (nameless, apply_plugin) refl
        | inr (name, there) ↦
            rw (there, apply_plugin, get_committed_known ns d.state known)
              (committed_again host registry snapshot steps ns (get ns registry) d i known
                (load d.state (committed ns d.state)) refl recorded)
      ]

  unchanged_plugins :
      (names : List String) (d : Daemon host registry)
      → IsIsolated d.state
      → AllKnown names d.state
      → AllSettled names d.state
      → apply_plugins host registry snapshot steps names d ≡ (ok tt, d)
  unfolding apply_plugins
  unchanged_plugins [] d i known all = refl
  unchanged_plugins (ns ∷ names) d i (known, h) (settled, all) =
      rw (settled_again ns d i known settled) (unchanged_plugins names d i h all)

-- If the loop over the plugins succeeds, and each of its namespaces has an entry in the state, then
-- running it again, for any snapshot, succeeds and changes nothing: no plugin is called.
pub apply_plugins_again :
    (host : Host) (registry : PluginRegistry) (names : List String)
    (snapshot snapshot' : host.Snapshot) (steps steps' : List String) (d d' : Daemon host registry)
    → IsIsolated d.state
    → AllKnown host registry snapshot steps names d.state
    → apply_plugins host registry snapshot steps names d ≡ (ok tt, d')
    → apply_plugins host registry snapshot' steps' names d' ≡ (ok tt, d')
apply_plugins_again host registry names snapshot snapshot' steps steps' d d' i known e =
    let done = apply_plugins-Succeeds host registry snapshot steps names d i known in
    let settled = (rw e at done) in
    let grown = apply_plugins-Extends host registry snapshot steps names d in
    let g = (rw e at grown) in
    unchanged_plugins host registry snapshot' steps' names d' (g.isolated i)
      (AllKnown-Grows host registry snapshot' steps' names d.state d'.state g known) settled.0
