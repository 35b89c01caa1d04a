-- ===== src/Daemon/Checkpoints.antt =====
-- The handlers of daemon/server.go that capture a snapshot or go back to one: apply, rollback, and
-- the listing and creating of checkpoints.
pub mod Latest
use jack.Base.{ℕ, String, ◌==◌, Bool, true, false, Option, none, some, List, [], ◌∷◌, if◌then◌else◌}
use jack.Base.Outcome.{Outcome, ok, err, panic}
use jack.Daemon.Commit.{Response}
use jack.Daemon.Host.{Host}
use jack.Daemon.Registry.{PluginRegistry}
use jack.Daemon.Snapshots.{
  Disk, Snapshots, SnapshotInfo, save_snapshot, load_snapshot, list_snapshots, prune_old_snapshots,
}
use jack.Daemon.Apply.{Daemon, Result, execute_apply_with_rollback, rollback_plugins}
use jack.Validation.{Error}

module _ (host : Host) (registry : PluginRegistry) (disk : Disk host.Snapshot) where
  pub record Server : Type 0 where
    pub daemon : Daemon host registry
    pub snapshots : Snapshots disk

  -- The checkpoints are pruned after a success only.
  applied : Result host registry → Snapshots disk → Response × Server
  applied (ok done, d) snapshots = (
    ok "Configuration applied",
    record { daemon = d; snapshots = prune_old_snapshots disk 10 snapshots },
  )
  applied (err e, d) snapshots =
      (err "apply failed, rolled back to checkpoint", record { daemon = d; snapshots = snapshots })
  applied (panic e, d) snapshots = (panic e, record { daemon = d; snapshots = snapshots })

  -- A snapshot that cannot be written to disk does not stop the apply.
  apply_captured : Outcome (String × host.Snapshot) → ℕ → Server → Response × Server
  unfolding applied
  apply_captured (ok (id, snapshot)) now s =
      applied (execute_apply_with_rollback host registry snapshot now s.daemon)
        (save_snapshot disk id snapshot s.snapshots).1
  apply_captured (err e) now s = (err "failed to capture snapshot", s)
  apply_captured (panic e) now s = (panic e, s)

  unfoldable pub handle_apply : ℕ → Server → Response × Server
  unfolding apply_captured
  handle_apply now s = apply_captured (host.capture s.daemon.world) now s

  with_rules : host.Snapshot → Daemon host registry → Daemon host registry
  with_rules snapshot d =
      if host.nftables_rules snapshot == ""
      then d
      else record d { world = (host.restore_nftables (host.nftables_rules snapshot) d.world).1 }

  restore_all : host.Snapshot → Result host registry → Response × Daemon host registry
  unfolding with_rules
  restore_all snapshot (ok done, d) =
      let (e, world) = host.restore snapshot ("all" ∷ []) d.world in
      let d' = record d { world = world } in
      elim e [
        | none ↦ (ok "Successfully rolled back to checkpoint", with_rules snapshot d')
        | some text ↦ (err "rollback failed", d')
      ]
  restore_all snapshot (err e, d) = (err e, d)
  restore_all snapshot (panic e, d) = (panic e, d)

  rollback_to : Outcome host.Snapshot → Server → Response × Server
  unfolding restore_all
  rollback_to (ok snapshot) s =
      let (response, d) = restore_all snapshot (rollback_plugins host registry s.daemon) in
      (response, record s { daemon = d })
  rollback_to (err e) s = (err "failed to load checkpoint", s)
  rollback_to (panic e) s = (panic e, s)

  unfoldable pub handle_rollback : String → Server → Response × Server
  unfolding rollback_to
  handle_rollback id s =
      rollback_to (load_snapshot disk (if id == "" then "latest" else id) s.snapshots) s

  unfoldable pub handle_checkpoint_list :
      {Time : Type 0} → (host.Snapshot → Time) → Server → List (SnapshotInfo Time)
  handle_checkpoint_list time s = list_snapshots disk time s.snapshots

  saved_answer : String → Outcome (Unit {0}) → Response
  saved_answer id (ok done) = ok id
  saved_answer id failed = err "failed to save checkpoint"

  create_captured : Outcome (String × host.Snapshot) → Server → Response × Server
  unfolding saved_answer
  create_captured (ok (auto, captured)) s =
      let (id, snapshot) = host.renamed captured in
      let (saved, snapshots) = save_snapshot disk id snapshot s.snapshots in
      (saved_answer id saved, record s { snapshots = snapshots })
  create_captured (err e) s = (err "failed to capture snapshot", s)
  create_captured (panic e) s = (panic e, s)

  unfoldable pub handle_checkpoint_create : Server → Response × Server
  unfolding create_captured
  handle_checkpoint_create s = create_captured (host.capture s.daemon.world) s
