-- ===== src/Daemon/State/Contents.antt =====
-- The references of a type after each operation of daemon/state.go, and what they refer to.
use jack.Base.{
  ℕ, ◌<◌, String, ◌==◌, ◌≡◌, refl, ap, ◌∙◌, ◌||◌, none, some, is_some, arith, eq_iff, if◌then◌else◌,
}
use jack.Base.Maps.{has, lookup-insert}
use jack.Daemon.Config.{Config}
use jack.Daemon.State.{
  State, Ref, entry_or_new, load, alloc, commit_pending, revert_pending, load_committed,
  set_last_applied,
}
use jack.Daemon.State.Entries.{
  entry-commit_pending, entry-revert_pending, entry-load_committed, entry-set_last_applied,
}
use jack.Daemon.State.Isolation.{committed, pending, last_applied}

module _ (s : State) where
  pub load-commit_pending : (r : Ref) → load (commit_pending s).1 r ≡ load s r
  unfolding commit_pending
  load-commit_pending none = refl
  load-commit_pending (some a) = refl

  pub load-revert_pending : (r : Ref) → load (revert_pending s).1 r ≡ load s r
  unfolding revert_pending
  load-revert_pending none = refl
  load-revert_pending (some a) = refl

  pub load-set_last_applied :
      (k : String) (r : Ref) (q : Ref) → load (set_last_applied k r s) q ≡ load s q
  unfolding set_last_applied
  load-set_last_applied k r none = refl
  load-set_last_applied k r (some a) = refl

  module _ (k : String) where
    pub committed-commit_pending :
        committed k (commit_pending s).1
        ≡ (if is_some (pending k s) then pending k s else committed k s)
    committed-commit_pending = ap (λ e. e.committed) (entry-commit_pending k s) ∙ ground arith

    pub pending-commit_pending : pending k (commit_pending s).1 ≡ none
    pending-commit_pending = ap (λ e. e.pending) (entry-commit_pending k s) ∙ ground arith

    pub applied-commit_pending : last_applied k (commit_pending s).1 ≡ last_applied k s
    applied-commit_pending = ap (λ e. e.last_applied) (entry-commit_pending k s) ∙ ground arith

    pub committed-revert_pending : committed k (revert_pending s).1 ≡ committed k s
    committed-revert_pending = ap (λ e. e.committed) (entry-revert_pending k s)

    pub pending-revert_pending : pending k (revert_pending s).1 ≡ none
    pending-revert_pending = ap (λ e. e.pending) (entry-revert_pending k s)

    pub applied-revert_pending : last_applied k (revert_pending s).1 ≡ last_applied k s
    applied-revert_pending = ap (λ e. e.last_applied) (entry-revert_pending k s)

-- after a file is loaded as a new object
module _ (type : String) (c : Config) (s : State) where
  abbrev pub loaded : State
  loaded = load_committed type (some (alloc c s).0) (alloc c s).1

  entry-loaded :
      (k : String)
      → entry_or_new k loaded ≡ (
          if type == k
          then record (entry_or_new type s) { committed = some s.next; pending = none }
          else entry_or_new k s)
  unfolding alloc
  entry-loaded k = unfold entry_or_new in entry-load_committed type k (some s.next) (alloc c s).1

  pub committed-loaded :
      (k : String) → committed k loaded ≡ (if type == k then some s.next else committed k s)
  committed-loaded k = ap (λ e. e.committed) (entry-loaded k) ∙ ground arith

  pub pending-loaded : (k : String) → pending k loaded ≡ (if type == k then none else pending k s)
  pending-loaded k = ap (λ e. e.pending) (entry-loaded k) ∙ ground arith

  pub applied-loaded : (k : String) → last_applied k loaded ≡ last_applied k s
  applied-loaded k = ap (λ e. e.last_applied) (entry-loaded k) ∙ ground (arith, eq_iff type k)

  pub known-loaded : (k : String) → has k loaded.registry ≡ (type == k || has k s.registry)
  unfolding load_committed alloc
  known-loaded k = rw lookup-insert (ground arith)

  pub load-loaded_old : (r : Ref) → ((a : ℕ) → r ≡ some a → a < s.next) → load loaded r ≡ load s r
  unfolding load_committed alloc
  load-loaded_old none old = refl
  load-loaded_old (some a) old = ground (arith, old a refl)

  pub load-loaded_new : load loaded (some s.next) ≡ some c
  unfolding load_committed alloc
  load-loaded_new = ground arith

-- after what is committed for a type has been applied
module _ (type : String) (s : State) where
  abbrev pub recorded : State
  recorded = set_last_applied type (committed type s) s

  entry-recorded :
      (k : String)
      → entry_or_new k recorded ≡ (
          if type == k
          then record (entry_or_new type s) { last_applied = committed type s }
          else entry_or_new k s)
  entry-recorded k = entry-set_last_applied type k (committed type s) s

  pub committed-recorded : (k : String) → committed k recorded ≡ committed k s
  committed-recorded k = ap (λ e. e.committed) (entry-recorded k) ∙ ground (arith, eq_iff type k)

  pub pending-recorded : (k : String) → pending k recorded ≡ pending k s
  pending-recorded k = ap (λ e. e.pending) (entry-recorded k) ∙ ground (arith, eq_iff type k)

  pub applied-recorded :
      (k : String)
      → last_applied k recorded ≡ (if type == k then committed type s else last_applied k s)
  applied-recorded k = ap (λ e. e.last_applied) (entry-recorded k) ∙ ground arith

  pub known-recorded : (k : String) → has k recorded.registry ≡ (type == k || has k s.registry)
  unfolding set_last_applied
  known-recorded k = rw lookup-insert (ground arith)
