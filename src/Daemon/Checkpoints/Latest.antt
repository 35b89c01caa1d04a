-- ===== src/Daemon/Checkpoints/Latest.antt =====
-- The checkpoint that a rollback goes back to after an apply.
use jack.Base.{
  ℕ, zero, suc, ◌-◌, ◌≤◌, String, ◌==◌, ◌≡◌, true, false, ◌||◌, some, List, [], ◌∷◌, ◌++◌, refl, ap,
  ◌∙◌, arith, eq_refl,
}
use jack.Base.Lists.{mem, length, drop, get_last?, length-append, mem-append, Unique, Unique-concat}
use jack.Base.Maps.{lookup, lookup-insert}
use jack.Base.Outcome.{ok, err, panic}
use jack.Daemon.Host.{Host}
use jack.Daemon.Registry.{PluginRegistry}
use jack.Daemon.Snapshots.{
  Disk, Snapshots, save_snapshot, load_snapshot, find_snapshot, prune_old_snapshots,
}
use jack.Daemon.Snapshots.Laws.{
  save_snapshot_lem, prune_old_snapshots_lem, prune_old_snapshots_keeps,
}
use jack.Daemon.Apply.{Result, execute_apply_with_rollback}
use jack.Daemon.Checkpoints.{Server, applied, apply_captured, handle_apply}

get_last?-append : {A : Type 0} (xs : List A) (x : A) → get_last? (xs ++ x ∷ []) ≡ some x
get_last?-append [] x = refl
get_last?-append (y ∷ []) x = refl
get_last?-append (y ∷ z ∷ xs) x = get_last?-append (z ∷ xs) x

drop-append :
    {A : Type 0} (n : ℕ) (xs : List A) (x : A)
    → n ≤ length xs
    → drop n (xs ++ x ∷ []) ≡ drop n xs ++ x ∷ []
drop-append zero xs x le = refl
drop-append (suc n) [] x le = absurd (omega (arith, le))
drop-append (suc n) (y ∷ xs) x le = drop-append n xs x (omega (arith, le))

module _ {Snapshot : Type 0} (disk : Disk Snapshot) where
  latest-found :
      (id : String) (ids : List String) (snapshot : Snapshot) (s : Snapshots disk)
      → s.snapshot_list ≡ ids ++ id ∷ []
      → lookup id s.snapshots ≡ some snapshot
      → load_snapshot disk "latest" s ≡ ok snapshot
  unfolding load_snapshot find_snapshot
  latest-found id ids snapshot s last found =
      let e : get_last? s.snapshot_list ≡ some id = ap get_last? last ∙ get_last?-append ids id in
      rw (e, load_snapshot, find_snapshot, found) refl

  -- A snapshot that was saved under a new id is still the latest one after pruning.
  latest-save_then_prune :
      (keep : ℕ) (id : String) (snapshot : Snapshot) (s : Snapshots disk)
      → Unique s.snapshot_list
      → mem id s.snapshot_list ≡ false
      → load_snapshot disk "latest"
          (prune_old_snapshots disk (suc keep) (save_snapshot disk id snapshot s).1)
        ≡ ok snapshot
  unfolding save_snapshot mem
  latest-save_then_prune keep id snapshot s unique new =
      let t = (save_snapshot disk id snapshot s).1 in
      let n = length t.snapshot_list - suc keep in
      let size = length-append s.snapshot_list (id ∷ []) in
      let few : n ≤ length s.snapshot_list = omega (arith, size) in
      let last =
        (prune_old_snapshots_lem disk (suc keep) t).1 ∙ drop-append n s.snapshot_list id few in
      let there : mem id (prune_old_snapshots disk (suc keep) t).snapshot_list ≡ true =
        rw last
          (mem-append id (drop n s.snapshot_list) (id ∷ []) ∙ found (drop n s.snapshot_list)) in
      latest-found id (drop n s.snapshot_list) snapshot (prune_old_snapshots disk (suc keep) t) last
        (prune_old_snapshots_keeps disk (suc keep) id t
            (Unique-concat s.snapshot_list id unique new) there
          ∙ lookup-insert id id snapshot s.snapshots
          ∙ rw eq_refl refl)
    where
      found : (ids : List String) → (mem id ids || mem id (id ∷ [])) ≡ true
      found ids = ground (arith, eq_refl id)

module _ (host : Host) (registry : PluginRegistry) (disk : Disk host.Snapshot) where
  latest-applied :
      (id : String) (snapshot : host.Snapshot) (r : Result host registry) (s : Snapshots disk)
      → id == "latest" ≡ false
      → Unique s.snapshot_list
      → mem id s.snapshot_list ≡ false
      → load_snapshot disk "latest"
          (applied host registry disk r (save_snapshot disk id snapshot s).1).1.snapshots
        ≡ ok snapshot
  unfolding applied
  latest-applied id snapshot (ok done, d) s proper unique new =
      latest-save_then_prune disk 9 id snapshot s unique new
  latest-applied id snapshot (err m, d) s proper unique new =
      (save_snapshot_lem disk id id snapshot s proper).1
  latest-applied id snapshot (panic m, d) s proper unique new =
      (save_snapshot_lem disk id id snapshot s proper).1

-- After an apply, whether it succeeded or not, and after the pruning that follows a success, the
-- latest checkpoint, which a rollback goes back to by default, is the snapshot that was captured
-- before it, if no two checkpoints have the same id.
pub latest_after_apply :
    (host : Host) (registry : PluginRegistry) (disk : Disk host.Snapshot) (now : ℕ)
    (s : Server host registry disk) (id : String) (snapshot : host.Snapshot)
    → host.capture s.daemon.world ≡ ok (id, snapshot)
    → id == "latest" ≡ false
    → Unique s.snapshots.snapshot_list
    → mem id s.snapshots.snapshot_list ≡ false
    → load_snapshot disk "latest" (handle_apply host registry disk now s).1.snapshots ≡ ok snapshot
unfolding handle_apply apply_captured
latest_after_apply host registry disk now s id snapshot captured proper unique new =
    rw (captured, handle_apply)
      (latest-applied host registry disk id snapshot
        (execute_apply_with_rollback host registry snapshot now s.daemon) s.snapshots proper unique
        new)
