-- ===== src/Daemon/Snapshots.antt =====
-- The snapshots of daemon/state.go, kept in memory and on disk for a rollback. What a snapshot
-- holds is for system/ to say; the files are behind `Disk`.
pub mod Laws
use Prim.Native.Char.{code}
use jack.Base.{
  ℕ, ◌-◌, String, ◌==◌, ◌≡◌, Bool, true, false, Option, none, some, List, [], ◌∷◌, ◌++◌, map, leb,
  eqb, is_some, if◌then◌else◌,
}
use jack.Base.Lists.{length, drop, take, get_last?}
use jack.Base.Maps.{Map, lookup, insert, delete}
use jack.Base.Outcome.{Outcome, ok, err}

-- package os at the files `<checkpoint id>.json` of the snapshot directory
pub record Disk (Snapshot : Type 0) : Type 1 where
  pub Files : Type 0
  pub write : String → Snapshot → Files → Outcome (Unit {0}) × Files
  pub read : String → Files → Outcome Snapshot
  pub remove : String → Files → Files

-- `getTriggerType`: a prefix with something behind it.
unfoldable pub has_prefix : String → String → Bool
has_prefix String.[] String.[] = false
has_prefix String.[] (String.◌∷◌ c id) = true
has_prefix (String.◌∷◌ a prefix) String.[] = false
has_prefix (String.◌∷◌ a prefix) (String.◌∷◌ c id) =
    let rest = has_prefix prefix id in if eqb (code a) (code c) then rest else false

unfoldable pub get_trigger_type : String → String
unfolding has_prefix
get_trigger_type id =
    if has_prefix "auto-" id
    then "auto"
    else if has_prefix "manual-" id
    then "manual"
    else "unknown"

pub record SnapshotInfo (Time : Type 0) : Type 0 where
  pub checkpoint_id : String
  pub timestamp : Time
  pub trigger : String

module _ {Snapshot : Type 0} (disk : Disk Snapshot) where
  pub record Snapshots : Type 0 where
    pub snapshots : Map Snapshot
    pub snapshot_list : List String
    pub files : disk.Files

  -- It is in memory even if the write fails.
  unfoldable pub save_snapshot : String → Snapshot → Snapshots → Outcome (Unit {0}) × Snapshots
  save_snapshot id snapshot s =
      let (written, files) = disk.write id snapshot s.files in
      (
        written,
        record {
          snapshots = insert id snapshot s.snapshots;
          snapshot_list = s.snapshot_list ++ id ∷ [];
          files = files;
        },
      )

  unfoldable pub find_snapshot : String → Snapshots → Outcome Snapshot
  find_snapshot id s = elim (lookup id s.snapshots) [
    | none ↦ disk.read id s.files
    | some snapshot ↦ ok snapshot
  ]

  unfoldable pub load_snapshot : String → Snapshots → Outcome Snapshot
  unfolding find_snapshot
  load_snapshot id s =
      if id == "latest"
      then elim (get_last? s.snapshot_list) [
        | none ↦ err "no snapshots available"
        | some last ↦ find_snapshot last s
      ]
      else find_snapshot id s

  unfoldable pub infos :
      {Time : Type 0} → (Snapshot → Time) → Map Snapshot → List String → List (SnapshotInfo Time)
  infos time m [] = []
  infos time m (id ∷ ids) =
      let rest = infos time m ids in
      elim (lookup id m) [
        | none ↦ rest
        | some snapshot ↦
            (record {
              checkpoint_id = id;
              timestamp = time snapshot;
              trigger = get_trigger_type id;
            })
            ∷ rest
      ]

  unfoldable pub list_snapshots :
      {Time : Type 0} → (Snapshot → Time) → Snapshots → List (SnapshotInfo Time)
  list_snapshots time s = infos time s.snapshots s.snapshot_list

  -- The loop over the snapshots to remove.
  unfoldable pub remove_snapshots : List String → Snapshots → Snapshots
  remove_snapshots [] s = s
  remove_snapshots (id ∷ ids) s =
      remove_snapshots ids
        (record s { snapshots = delete id s.snapshots; files = disk.remove id s.files })

  unfoldable pub prune_old_snapshots : ℕ → Snapshots → Snapshots
  prune_old_snapshots keep_count s =
      let size = length s.snapshot_list in
      let kept = remove_snapshots (take (size - keep_count) s.snapshot_list) s in
      if leb size keep_count
      then s
      else record kept { snapshot_list = drop (size - keep_count) s.snapshot_list }
