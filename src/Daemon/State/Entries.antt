-- ===== src/Daemon/State/Entries.antt =====
-- What each operation of daemon/state.go does to the entry of a type, as rewriting rules.
use jack.Base.{String, ◌==◌, ◌≡◌, none, arith, if◌then◌else◌}
use jack.Base.Maps.{lookup-insert, lookup-map_values}
use jack.Daemon.State.{
  State, Ref, entry_or_new, commit_entry, revert_entry, load_committed, set_pending,
  set_last_applied, commit_pending, revert_pending,
}

module _ (k j : String) (r : Ref) (s : State) where
  pub entry-set_pending :
      entry_or_new j (set_pending k r s)
      ≡ (if k == j then record (entry_or_new k s) { pending = r } else entry_or_new j s)
  unfolding entry_or_new set_pending
  entry-set_pending = rw (lookup-insert, entry_or_new) (ground arith)

  pub entry-set_last_applied :
      entry_or_new j (set_last_applied k r s)
      ≡ (if k == j then record (entry_or_new k s) { last_applied = r } else entry_or_new j s)
  unfolding entry_or_new set_last_applied
  entry-set_last_applied = rw (lookup-insert, entry_or_new) (ground arith)

  pub entry-load_committed : entry_or_new j (load_committed k r s) ≡ (
      if k == j
      then record (entry_or_new k s) { committed = r; pending = none }
      else entry_or_new j s)
  unfolding entry_or_new load_committed
  entry-load_committed = rw (lookup-insert, entry_or_new) (ground arith)

module _ (j : String) (s : State) where
  pub entry-commit_pending : entry_or_new j (commit_pending s).1 ≡ commit_entry (entry_or_new j s)
  unfolding entry_or_new commit_pending
  entry-commit_pending = rw (lookup-map_values, entry_or_new) (ground arith)

  pub entry-revert_pending : entry_or_new j (revert_pending s).1 ≡ revert_entry (entry_or_new j s)
  unfolding entry_or_new revert_pending
  entry-revert_pending = rw (lookup-map_values, entry_or_new) (ground arith)
