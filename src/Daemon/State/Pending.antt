-- ===== src/Daemon/State/Pending.antt =====
-- Which types have pending changes, before and after a commit or a revert.
use jack.Base.{
  String, ◌≡◌, refl, Bool, true, false, Option, none, some, List, [], ◌∷◌, arith, eq_iff, is_some,
  if◌then◌else◌, Bool-cases, inl, inr,
}
use jack.Base.Maps.{Map, Distinct, lookup, has, map_values}
use jack.Base.Lists.{mem}
use jack.Base.Outcome.{ok, err}
use jack.Daemon.State.{
  ConfigEntry, State, entry_or_new, any_pending, pending_types, has_pending, has_pending_for,
  get_pending_types, commit_entry, revert_entry, commit_pending, revert_pending,
}
use jack.Daemon.State.Entries.{entry-commit_pending, entry-revert_pending}

pub has_pending_for-entry :
    (k : String) (s : State) → has_pending_for k s ≡ is_some (entry_or_new k s).pending
unfolding has_pending_for entry_or_new
has_pending_for-entry k s = ground arith

abbrev pends : Option ConfigEntry → Bool
pends none = false
pends (some e) = is_some e.pending

-- a key that the map lacks is not listed
mem-pending_types_absent :
    (k : String) (m : Map ConfigEntry) → has k m ≡ false → mem k (pending_types m) ≡ false
unfolding mem pending_types lookup
mem-pending_types_absent k [] h = refl
mem-pending_types_absent k ((j, e) ∷ m) h = ground (arith, mem-pending_types_absent k m)

mem-pending_types :
    (k : String) (m : Map ConfigEntry) → Distinct m → mem k (pending_types m) ≡ pends (lookup k m)
unfolding mem pending_types lookup
mem-pending_types k [] d = refl
mem-pending_types k ((j, e) ∷ m) d =
    ground (arith, mem-pending_types k m d.1, mem-pending_types_absent k m, eq_iff j k)

-- `GetPendingTypes` lists exactly the types for which `HasPendingFor` holds.
pub mem-get_pending_types :
    (k : String) (s : State)
    → Distinct s.registry
    → mem k (get_pending_types s) ≡ has_pending_for k s
unfolding get_pending_types has_pending_for
mem-get_pending_types k s d = ground (arith, mem-pending_types k s.registry d)

abbrev pub is_empty : List String → Bool
is_empty [] = true
is_empty (x ∷ xs) = false

any_pending-pending_types : (m : Map ConfigEntry) → (any_pending m ≡ false) → pending_types m ≡ []
unfolding any_pending pending_types
any_pending-pending_types [] h = refl
any_pending-pending_types ((k, e) ∷ m) h = ground (arith, any_pending-pending_types m)

pending_types-any_pending : (m : Map ConfigEntry) → pending_types m ≡ [] → any_pending m ≡ false
unfolding any_pending pending_types
pending_types-any_pending [] h = refl
pending_types-any_pending ((k, e) ∷ m) h = ground (arith, pending_types-any_pending m)

-- an operation that clears the pending field of every entry leaves no type pending
pending_types-cleared :
    (f : ConfigEntry → ConfigEntry) (m : Map ConfigEntry)
    → ((e : ConfigEntry) → is_some (f e).pending ≡ false)
    → pending_types (map_values f m) ≡ []
unfolding pending_types map_values
pending_types-cleared f [] h = refl
pending_types-cleared f ((k, e) ∷ m) h = rw (h e) (pending_types-cleared f m h)

commit_entry_clears : (e : ConfigEntry) → is_some (commit_entry e).pending ≡ false
commit_entry_clears e = ground arith

-- After `CommitPending` each entry has its pending configuration, if it had one, as the committed
-- one; entries without one and every `LastApplied` are as before; no type is pending. The call
-- fails exactly when no type was pending.
pub commit_pending_lem :
    (k : String) (s : State)
    → (entry_or_new k (commit_pending s).1 ≡ (
        if is_some (entry_or_new k s).pending
        then record {
          committed = (entry_or_new k s).pending;
          pending = none;
          last_applied = (entry_or_new k s).last_applied;
        }
        else entry_or_new k s))
      × (get_pending_types (commit_pending s).1 ≡ [])
      × ((commit_pending s).0
          ≡ (if is_empty (get_pending_types s) then err "no pending changes to commit" else ok tt))
unfolding commit_pending get_pending_types has_pending
commit_pending_lem k s = (
  ground (arith, entry-commit_pending k s),
  pending_types-cleared commit_entry s.registry commit_entry_clears,
  ground (arith, any_pending-pending_types s.registry, pending_types-any_pending s.registry),
)

-- `RevertPending` succeeds, empties the pending field of every entry and changes no other.
pub revert_pending_lem :
    (k : String) (s : State)
    → ((revert_pending s).0 ≡ ok tt)
      × (entry_or_new k (revert_pending s).1 ≡ record (entry_or_new k s) { pending = none })
      × (get_pending_types (revert_pending s).1 ≡ [])
unfolding revert_pending get_pending_types
revert_pending_lem k s =
    (refl, entry-revert_pending k s, pending_types-cleared revert_entry s.registry (λ e. refl))

commit_values_none : (m : Map ConfigEntry) → pending_types m ≡ [] → map_values commit_entry m ≡ m
unfolding pending_types map_values
commit_values_none [] h = refl
commit_values_none ((k, e) ∷ m) h = elim (Bool-cases (is_some e.pending)) [
  | inl some_pending ↦ absurd (ground arith)
  | inr free ↦ rw (free, commit_values_none m (rw free at h)) refl
]

pub get_pending_types_none : (s : State) → has_pending s ≡ false → get_pending_types s ≡ []
unfolding has_pending get_pending_types
get_pending_types_none s h = any_pending-pending_types s.registry h

-- with nothing pending, a commit changes nothing
pub commit_pending_none : (s : State) → get_pending_types s ≡ [] → (commit_pending s).1 ≡ s
unfolding get_pending_types commit_pending
commit_pending_none s h = rw (commit_values_none s.registry h) refl
