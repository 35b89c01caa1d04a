-- ===== src/Daemon/Snapshots/Laws.antt =====
-- Saving, finding and pruning snapshots.
use jack.Base.{
  ℕ, zero, suc, ◌-◌, ◌≤◌, String, ◌==◌, ◌≡◌, refl, ◌∙◌, true, false, none, some, List, [], ◌∷◌,
  ◌++◌, leb, arith, eq_iff, eq_refl, inl, inr, Bool-cases, if◌then◌else◌,
}
use jack.Base.Lists.{length, length-drop, drop, take, get_last?, mem, mem-append, Unique}
use jack.Base.Maps.{lookup, lookup-insert, lookup-delete}
use jack.Base.Outcome.{ok}
use jack.Daemon.Snapshots.{
  Disk, Snapshots, save_snapshot, find_snapshot, load_snapshot, remove_snapshots,
  prune_old_snapshots,
}

get_last?-concat : (xs : List String) (x : String) → get_last? (xs ++ x ∷ []) ≡ some x
get_last?-concat [] x = refl
get_last?-concat (y ∷ []) x = refl
get_last?-concat (y ∷ z ∷ xs) x = get_last?-concat (z ∷ xs) x

take-drop : (n : ℕ) (xs : List String) → take n xs ++ drop n xs ≡ xs
take-drop zero xs = refl
take-drop (suc n) [] = refl
take-drop (suc n) (x ∷ xs) = cc (take-drop n xs)

-- a name of the second part is none of the first
Unique-apart :
    (xs ys : List String) (x : String) → Unique (xs ++ ys) → mem x ys ≡ true → mem x xs ≡ false
unfolding mem
Unique-apart [] ys x u m = refl
Unique-apart (z ∷ xs) ys x u m =
    ground (arith, Unique-apart xs ys x u.1 m, u.0, mem-append z xs ys, eq_iff z x)

module _ {Snapshot : Type 0} (disk : Disk Snapshot) where
  find-save_snapshot :
      (id : String) (snapshot : Snapshot) (s : Snapshots disk)
      → find_snapshot disk id (save_snapshot disk id snapshot s).1 ≡ ok snapshot
  unfolding save_snapshot find_snapshot
  find-save_snapshot id snapshot s =
      ground (arith, lookup-insert id id snapshot s.snapshots, eq_refl id)

  latest-save_snapshot :
      (id : String) (snapshot : Snapshot) (s : Snapshots disk)
      → load_snapshot disk "latest" (save_snapshot disk id snapshot s).1 ≡ ok snapshot
  unfolding load_snapshot save_snapshot
  latest-save_snapshot id snapshot s =
      rw (get_last?-concat s.snapshot_list id) (find-save_snapshot id snapshot s)

  -- A snapshot that was saved, whether the disk took it or not, is found under its id and as the
  -- latest one; what is kept in memory under other ids is as before.
  pub save_snapshot_lem :
      (id other : String) (snapshot : Snapshot) (s : Snapshots disk)
      → id == "latest" ≡ false
      → (load_snapshot disk id (save_snapshot disk id snapshot s).1 ≡ ok snapshot)
        × (load_snapshot disk "latest" (save_snapshot disk id snapshot s).1 ≡ ok snapshot)
        × (lookup other (save_snapshot disk id snapshot s).1.snapshots
            ≡ (if id == other then some snapshot else lookup other s.snapshots))
  unfolding save_snapshot load_snapshot
  save_snapshot_lem id other snapshot s proper = (
    rw proper (find-save_snapshot id snapshot s),
    latest-save_snapshot id snapshot s,
    lookup-insert id other snapshot s.snapshots,
  )

  lookup-remove_snapshots :
      (ids : List String) (id : String) (s : Snapshots disk)
      → lookup id (remove_snapshots disk ids s).snapshots
        ≡ (if mem id ids then none else lookup id s.snapshots)
  unfolding remove_snapshots mem
  lookup-remove_snapshots [] id s = refl
  lookup-remove_snapshots (j ∷ ids) id s =
      rw (lookup-remove_snapshots ids id, lookup-delete) (ground arith)

  -- Pruning leaves the newest `keep_count` ids at most, in their order.
  pub prune_old_snapshots_lem :
      (keep_count : ℕ) (s : Snapshots disk)
      → (length (prune_old_snapshots disk keep_count s).snapshot_list ≤ keep_count)
        × ((prune_old_snapshots disk keep_count s).snapshot_list
            ≡ drop (length s.snapshot_list - keep_count) s.snapshot_list)
  unfolding prune_old_snapshots
  prune_old_snapshots_lem keep_count s =
      let n = length s.snapshot_list - keep_count in
      let shorter = length-drop n s.snapshot_list in
      elim (Bool-cases (leb (length s.snapshot_list) keep_count)) [
        | inl few ↦
            let none_removed : n ≡ 0 = ground arith in rw few (ground arith, rw none_removed refl)
        | inr many ↦ rw many (ground (arith, shorter), refl)
      ]

  -- If no id was saved twice, each id that pruning leaves has the snapshot that it had.
  pub prune_old_snapshots_keeps :
      (keep_count : ℕ) (id : String) (s : Snapshots disk)
      → Unique s.snapshot_list
      → mem id (prune_old_snapshots disk keep_count s).snapshot_list ≡ true
      → lookup id (prune_old_snapshots disk keep_count s).snapshots ≡ lookup id s.snapshots
  unfolding prune_old_snapshots
  prune_old_snapshots_keeps keep_count id s u m =
      let n = length s.snapshot_list - keep_count in
      elim (Bool-cases (leb (length s.snapshot_list) keep_count)) [
        | inl few ↦ rw few refl
        | inr many ↦
            let left : mem id (drop n s.snapshot_list) ≡ true = (rw many at m) in
            let apart =
              Unique-apart (take n s.snapshot_list) (drop n s.snapshot_list) id
                (rw (take-drop n s.snapshot_list) u) left in
            rw many (lookup-remove_snapshots (take n s.snapshot_list) id s ∙ rw apart refl)
      ]
