-- ===== src/Daemon/State/Isolation.antt =====
-- The references of the state: a pending configuration is an object of its own, so a change of it
-- shows nowhere else.
use jack.Base.{ℕ, ◌<◌, String, ◌==◌, ◌≡◌, ◌≢◌, none, some, arith, eq_iff, if◌then◌else◌}
use jack.Daemon.Config.{Config}
use jack.Daemon.State.{
  State, Ref, entry_or_new, alloc, set_last_applied, load_committed, commit_pending, revert_pending,
}
use jack.Daemon.State.Entries.{
  entry-set_last_applied, entry-load_committed, entry-commit_pending, entry-revert_pending,
}

-- The fields of the entry of a type.
abbrev pub committed : String → State → Ref
committed k s = (entry_or_new k s).committed

abbrev pub pending : String → State → Ref
pending k s = (entry_or_new k s).pending

abbrev pub last_applied : String → State → Ref
last_applied k s = (entry_or_new k s).last_applied

pub record IsIsolated (s : State) : Type 0 where
  pub committed_there : (k : String) (a : ℕ) → committed k s ≡ some a → a < s.next
  pub pending_there : (k : String) (a : ℕ) → pending k s ≡ some a → a < s.next
  pub applied_there : (k : String) (a : ℕ) → last_applied k s ≡ some a → a < s.next
  -- a pending object is no committed or applied one, of any type
  pub not_committed : (k j : String) (a : ℕ) → pending k s ≡ some a → committed j s ≢ some a
  pub not_applied : (k j : String) (a : ℕ) → pending k s ≡ some a → last_applied j s ≢ some a
  -- nor the pending one of another type
  pub own : (k j : String) (a : ℕ) → pending k s ≡ some a → pending j s ≡ some a → k ≡ j
  -- no two objects hold one map
  pub own_map : (a : ℕ) → s.map_of a ≡ a

-- `CommitPending` keeps the references isolated.
pub commit_pending-IsIsolated : {s : State} → IsIsolated s → IsIsolated (commit_pending s).1
unfolding commit_pending
commit_pending-IsIsolated {s} h = record {
  committed_there =
      λ k a e. ground (arith, entry-commit_pending k s, h.committed_there k a, h.pending_there k a);
  pending_there = λ k a e. ground (arith, entry-commit_pending k s, h.pending_there k a);
  applied_there = λ k a e. ground (arith, entry-commit_pending k s, h.applied_there k a);
  not_committed = λ k j a e. ground (arith, entry-commit_pending k s);
  not_applied = λ k j a e. ground (arith, entry-commit_pending k s);
  own = λ k j a e. ground (arith, entry-commit_pending k s);
  own_map = h.own_map;
}

pub revert_pending-IsIsolated : {s : State} → IsIsolated s → IsIsolated (revert_pending s).1
unfolding revert_pending
revert_pending-IsIsolated {s} h = record {
  committed_there = λ k a e. ground (arith, entry-revert_pending k s, h.committed_there k a);
  pending_there = λ k a e. ground (arith, entry-revert_pending k s);
  applied_there = λ k a e. ground (arith, entry-revert_pending k s, h.applied_there k a);
  not_committed = λ k j a e. ground (arith, entry-revert_pending k s);
  not_applied = λ k j a e. ground (arith, entry-revert_pending k s);
  own = λ k j a e. ground (arith, entry-revert_pending k s);
  own_map = h.own_map;
}

-- Recording that the committed configuration was applied.
pub set_last_applied-IsIsolated :
    (k : String) {s : State} → IsIsolated s → IsIsolated (set_last_applied k (committed k s) s)
unfolding set_last_applied
set_last_applied-IsIsolated k {s} h = record {
  committed_there = λ j b e. ground (arith, recorded j, h.committed_there j b, eq_iff k j);
  pending_there = λ j b e. ground (arith, recorded j, h.pending_there j b, eq_iff k j);
  applied_there =
      λ j b e. ground (arith, recorded j, h.applied_there j b, h.committed_there k b, eq_iff k j);
  not_committed = λ i j b e f.
      ground (arith, recorded i, recorded j, h.not_committed i j b, eq_iff k j, eq_iff k i);
  not_applied = λ i j b e f. ground (
    arith,
    recorded i,
    recorded j,
    h.not_applied i j b,
    h.not_committed i k b,
    eq_iff k j,
    eq_iff k i,
  );
  own = λ i j b e f. ground (arith, recorded i, recorded j, h.own i j b, eq_iff k j, eq_iff k i);
  own_map = h.own_map;
}
  where
    recorded :
        (j : String)
        → entry_or_new j (set_last_applied k (committed k s) s) ≡ (
            if k == j
            then record (entry_or_new k s) { last_applied = committed k s }
            else entry_or_new j s)
    recorded j = entry-set_last_applied k j (committed k s) s

-- Loading a configuration as a new object keeps the references isolated.
pub load_committed-IsIsolated :
    (k : String) (c : Config) {s : State}
    → IsIsolated s
    → IsIsolated (load_committed k (some (alloc c s).0) (alloc c s).1)
unfolding load_committed alloc
load_committed-IsIsolated k c {s} h =
    let s' : State = (alloc c s).1 in
    record {
      committed_there = λ j b e. ground (arith, loaded j, h.committed_there j b, eq_iff k j);
      pending_there = λ j b e. ground (arith, loaded j, h.pending_there j b, eq_iff k j);
      applied_there = λ j b e. ground (arith, loaded j, h.applied_there j b, eq_iff k j);
      not_committed = λ i j b e f. ground (
        arith,
        loaded i,
        loaded j,
        h.not_committed i j b,
        h.pending_there i b,
        eq_iff k i,
        eq_iff k j,
      );
      not_applied = λ i j b e f.
          ground (arith, loaded i, loaded j, h.not_applied i j b, eq_iff k i, eq_iff k j);
      own = λ i j b e f. ground (arith, loaded i, loaded j, h.own i j b, eq_iff k i, eq_iff k j);
      own_map = λ b. ground (arith, h.own_map b);
    }
  where
    loaded :
        (j : String)
        → entry_or_new j (load_committed k (some (alloc c s).0) (alloc c s).1) ≡ (
            if k == j
            then record (entry_or_new k s) { committed = some s.next; pending = none }
            else entry_or_new j s)
    loaded j = unfold entry_or_new in entry-load_committed k j (some s.next) (alloc c s).1
