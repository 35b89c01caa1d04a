-- ===== src/Daemon/Apply/Keeps.antt =====
-- What an apply does to the configuration state, on each of its branches.
use jack.Base.{String, ◌≡◌, Option, none, some, List, [], ◌∷◌, refl, ◌∙◌, inl, inr, Option-cases}
use jack.Base.Maps.{Map, lookup}
use jack.Base.Outcome.{Outcome, ok, err, panic, Outcome-cases}
use jack.Types.Network.{Interface}
use jack.Validation.{Error}
use jack.Daemon.Config.{Config, interfaces, routes, jack_config, plugin, nil_map}
use jack.Daemon.Plugin.{Plugin, ServiceDescriptor}
use jack.Daemon.Host.{Host}
use jack.Daemon.Registry.{PluginRegistry, get, get_plugin_name_for_namespace}
use jack.Daemon.State.{
  State, Ref, load, get_committed, get_last_applied, entry_or_new, ConfigEntry, new_entry,
}
use jack.Daemon.State.Isolation.{committed}
use jack.Daemon.Services.{mark_service_ready}
use jack.Daemon.Apply.{
  Daemon, Result, and_then, Source, shared, failing, restored, apply_interfaces, committed_source,
  default_source, file_source, source_of, mark_services, reapply, reapply_file, apply_ignoring,
  flush_and_reapply, rollback_loop, rollback_plugins, roll_back,
}

pub get_committed-committed :
    (k : String) (s : State) (r : Ref) → get_committed k s ≡ ok r → r ≡ committed k s
unfolding get_committed entry_or_new
get_committed-committed k s r e = go (lookup k s.registry) e
  where
    go :
        (entry : Option ConfigEntry)
        → (elim entry as (λ x. Outcome Ref) [
          | none ↦ err "unknown config type"
          | some f ↦ ok f.committed
        ])
          ≡ ok r
        → r ≡ (elim entry as (λ x. ConfigEntry) [ none ↦ new_entry | some f ↦ f ]).committed
    go none e = cc
    go (some f) e = cc

module _ (host : Host) (registry : PluginRegistry) where
  -- A reference that a source shares is the committed one.
  abbrev pub IsSourceOf : String → State → Source host registry → Type 0
  IsSourceOf ns s (shared r) = r ≡ committed ns s
  IsSourceOf ns s other = Unit

  -- There is no error, since a configuration that is not found is skipped.
  abbrev pub IsOutcomeOf : String → State → Outcome (Source host registry) → Type 0
  IsOutcomeOf ns s (ok source) = IsSourceOf ns s source
  IsOutcomeOf ns s (err m) = ⊥
  IsOutcomeOf ns s (panic m) = Unit

  committed_source-IsSourceOf :
      (ns : String) (s : State) (r : Ref) (c : Option Config)
      → r ≡ committed ns s
      → IsSourceOf ns s (committed_source host registry r c)
  unfolding committed_source
  committed_source-IsSourceOf ns s r none e = tt
  committed_source-IsSourceOf ns s r (some (plugin f)) e = e
  committed_source-IsSourceOf ns s r (some nil_map) e = e
  committed_source-IsSourceOf ns s r (some (interfaces c)) e = tt
  committed_source-IsSourceOf ns s r (some (routes c)) e = tt
  committed_source-IsSourceOf ns s r (some (jack_config c)) e = tt

  default_source-IsOutcomeOf :
      (ns : String) (s : State) (p : Option Plugin)
      → IsOutcomeOf ns s (default_source host registry p)
  unfolding default_source
  default_source-IsOutcomeOf ns s none = tt
  default_source-IsOutcomeOf ns s (some p) = elim (Option-cases p.metadata.default_config) [
    | inl missing ↦ rw missing tt
    | inr (f, there) ↦ rw there tt
  ]

  file_source-IsOutcomeOf :
      (ns : String) (s : State) (p : Option Plugin) (read : Outcome Config)
      → IsOutcomeOf ns s (file_source host registry p read)
  unfolding file_source
  file_source-IsOutcomeOf ns s p (ok c) = tt
  file_source-IsOutcomeOf ns s p (err e) = default_source-IsOutcomeOf ns s p
  file_source-IsOutcomeOf ns s p (panic e) = default_source-IsOutcomeOf ns s p

  pub source_of-IsOutcomeOf :
      (ns name : String) (p : Option Plugin) (d : Daemon host registry) (found : Outcome Ref)
      → get_committed ns d.state ≡ found
      → IsOutcomeOf ns d.state (source_of host registry p name found d)
  unfolding source_of
  source_of-IsOutcomeOf ns name p d (ok r) e =
      committed_source-IsSourceOf ns d.state r (load d.state r)
        (get_committed-committed ns d.state r e)
  source_of-IsOutcomeOf ns name p d (err m) e = file_source-IsOutcomeOf ns d.state p _
  source_of-IsOutcomeOf ns name p d (panic m) e = file_source-IsOutcomeOf ns d.state p _

  pub failing-rule :
      (P : Result host registry → Type 0) (e : Error) (fail : String → Result host registry)
      (go_on : Result host registry)
      → ((text : String) → P (fail text))
      → P go_on
      → P (failing host registry e fail go_on)
  failing-rule P none fail go_on f g = g
  failing-rule P (some text) fail go_on f g = f text

  -- Calls that change only the world or the services.
  abbrev Leaves : State → Result host registry → Type 0
  Leaves s result = result.1.state ≡ s

  pub apply_interfaces-state :
      (snapshot : host.Snapshot) (steps : List String) (m : Map Interface) (names : List String)
      (d : Daemon host registry)
      → Leaves d.state (apply_interfaces host registry snapshot steps m names d)
  unfolding apply_interfaces restored
  apply_interfaces-state snapshot steps m [] d = refl
  apply_interfaces-state snapshot steps m (name ∷ names) d =
      failing-rule (Leaves d.state) _ _ _ (λ text. refl)
        (apply_interfaces-state snapshot steps m names _)

  pub mark_services-state :
      (services : List ServiceDescriptor) (d : Daemon host registry)
      → Leaves d.state (mark_services host registry services d)
  unfolding mark_services
  mark_services-state [] d = refl
  mark_services-state (s ∷ ss) d = elim (Outcome-cases (mark_service_ready s.name d.services)) [
    | inl (r, done) ↦ rw (done, mark_services) (mark_services-state ss (record d { services = r }))
    | inr (inl (m, failed)) ↦ rw (failed, mark_services) (mark_services-state ss d)
    | inr (inr (m, failed)) ↦ rw (failed, mark_services) refl
  ]

  reapply_file-state :
      (p : Plugin) (read : Outcome Config) (d : Daemon host registry)
      → (reapply_file host registry p read d).state ≡ d.state
  unfolding reapply_file apply_ignoring
  reapply_file-state p (ok c) d = refl
  reapply_file-state p (err m) d = refl
  reapply_file-state p (panic m) d = refl

  reapply-state :
      (p : Plugin) (name : String) (last : Outcome Ref) (d : Daemon host registry)
      → (reapply host registry p name last d).state ≡ d.state
  unfolding reapply apply_ignoring
  reapply-state p name (ok none) d = reapply_file-state p _ d
  reapply-state p name (ok (some a)) d = refl
  reapply-state p name (err m) d = reapply_file-state p _ d
  reapply-state p name (panic m) d = reapply_file-state p _ d

  flush_and_reapply-state :
      (ns : String) (p : Plugin) (d : Daemon host registry)
      → (flush_and_reapply host registry ns p d).state ≡ d.state
  unfolding flush_and_reapply
  flush_and_reapply-state ns p d = elim (Option-cases (get_plugin_name_for_namespace ns registry)) [
    | inl missing ↦ rw (missing, flush_and_reapply) refl
    | inr (name, there) ↦
        rw (there, flush_and_reapply) (reapply-state p name (get_last_applied ns d.state) _)
  ]

  rollback_loop-state :
      (names : List String) (d : Daemon host registry)
      → Leaves d.state (rollback_loop host registry names d)
  unfolding rollback_loop
  rollback_loop-state [] d = refl
  rollback_loop-state (ns ∷ names) d = elim (Option-cases (get ns registry)) [
    | inl missing ↦ rw (missing, rollback_loop) refl
    | inr (p, there) ↦
        rw (there, rollback_loop) (rollback_loop-state names _ ∙ flush_and_reapply-state ns p d)
  ]

  and_then-Leaves :
      (s : State) (r : Result host registry) (next : Daemon host registry → Result host registry)
      → Leaves s r
      → ((d : Daemon host registry) → d.state ≡ s → Leaves s (next d))
      → Leaves s (and_then host registry r next)
  and_then-Leaves s (ok done, d) next h k = k d h
  and_then-Leaves s (err m, d) next h k = h
  and_then-Leaves s (panic m, d) next h k = h

  pub roll_back-state :
      (snapshot : host.Snapshot) (steps : List String) (text : String) (d : Daemon host registry)
      → Leaves d.state (roll_back host registry snapshot steps text d)
  unfolding roll_back rollback_plugins restored
  roll_back-state snapshot steps text d =
      and_then-Leaves d.state _ _ (rollback_loop-state _ d) (λ d' e. e)
