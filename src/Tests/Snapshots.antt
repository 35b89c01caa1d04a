-- ===== src/Tests/Snapshots.antt =====
-- The snapshots of daemon/state.go with a disk that keeps every file.
use jack.Base.{ℕ, ◌≡◌, refl, String, ◌==◌, ◌∷◌, [], some, none, if◌then◌else◌}
use jack.Base.Maps.{Map, lookup, insert, delete}
use jack.Base.Outcome.{Outcome, ok, err}
use jack.Daemon.Snapshots.{Disk, Snapshots, save_snapshot, load_snapshot}
use jack.Daemon.Snapshots.Laws.{save_snapshot_lem}

abbrev pub read_file : String → Map ℕ → Outcome ℕ
read_file id files = elim (lookup id files) [ none ↦ err "snapshot not found" | some n ↦ ok n ]

abbrev pub disk : Disk ℕ
disk = record {
  Files = Map ℕ;
  write = λ id n files. (ok tt, insert id n files);
  read = read_file;
  remove = delete;
}

abbrev two_saved : Snapshots disk
two_saved = record {
  snapshots = ("auto-1", 1) ∷ ("auto-2", 2) ∷ [];
  snapshot_list = "auto-1" ∷ "auto-2" ∷ [];
  files = ("auto-1", 1) ∷ ("auto-2", 2) ∷ [];
}

save_snapshot_lem_example :
    (load_snapshot disk "manual-3" (save_snapshot disk "manual-3" 3 two_saved).1 ≡ ok 3)
    × (load_snapshot disk "latest" (save_snapshot disk "manual-3" 3 two_saved).1 ≡ ok 3)
    × (lookup "auto-1" (save_snapshot disk "manual-3" 3 two_saved).1.snapshots
        ≡ (if "manual-3" == "auto-1" then some 3 else lookup "auto-1" two_saved.snapshots))
save_snapshot_lem_example = save_snapshot_lem disk "manual-3" "auto-1" 3 two_saved refl
