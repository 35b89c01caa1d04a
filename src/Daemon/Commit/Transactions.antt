-- ===== src/Daemon/Commit/Transactions.antt =====
-- A change that is staged, and then committed or reverted.
use jack.Base.{
  String, ◌≡◌, ◌≢◌, refl, ◌∙◌, true, none, some, is_some, arith, if◌then◌else◌, inl, inr,
  Option-cases,
}
use jack.Daemon.Config.{Config}
use jack.Daemon.State.{State, Ref, load, commit_pending, revert_pending}
use jack.Daemon.State.Contents.{
  load-commit_pending, load-revert_pending, committed-commit_pending, applied-commit_pending,
  committed-revert_pending, applied-revert_pending, pending-revert_pending,
}
use jack.Daemon.State.Isolation.{committed, pending, last_applied}
use jack.Daemon.Server.Staging.{Stages}

module _ (type : String) (c : Config) (s s' : State) (staged : Stages type c s s') where
  -- the reference that was staged is there
  staged_there : is_some (pending type s') ≡ true
  staged_there = go (pending type s') staged.pending_is
    where
      go : (r : Ref) → load s' r ≡ some c → is_some r ≡ true
      go none h = cc
      go (some a) h = refl

  other_committed :
      (k : String)
      → type ≢ k
      → load (commit_pending s').1 (committed k (commit_pending s').1)
        ≡ (if is_some (pending k s) then load s (pending k s) else load s (committed k s))
  other_committed k ne =
      let same : pending k s' ≡ pending k s = staged.pending_same k ne in
      let kept = staged.pending_kept k ne in
      let old = staged.committed_kept k in
      elim (Option-cases (pending k s)) [
        | inl free ↦
            let stays : committed k (commit_pending s').1 ≡ committed k s' =
              committed-commit_pending s' k ∙ ground (arith, same, free) in
            rw (stays, free) (load-commit_pending s' _ ∙ old)
        | inr (a, at) ↦
            let moves : committed k (commit_pending s').1 ≡ pending k s' =
              committed-commit_pending s' k ∙ ground (arith, same, at) in
            rw moves (load-commit_pending s' _ ∙ kept ∙ rw at refl)
      ]

  -- After a change of a type is staged and everything is committed, the committed configuration of
  -- the type is the changed one; that of another type is what was pending for it, or else the
  -- committed one, as it was before the change; and what was last applied is, for every type, as
  -- before.
  pub stage_then_commit :
      (k : String)
      → (load (commit_pending s').1 (committed type (commit_pending s').1) ≡ some c)
        × (type ≢ k
            → load (commit_pending s').1 (committed k (commit_pending s').1)
              ≡ (if is_some (pending k s) then load s (pending k s) else load s (committed k s)))
        × (load (commit_pending s').1 (last_applied k (commit_pending s').1)
            ≡ load s (last_applied k s))
  stage_then_commit k =
      let own : committed type (commit_pending s').1 ≡ pending type s' =
        committed-commit_pending s' type ∙ ground (arith, staged_there) in
      (
        rw (own, load-commit_pending) staged.pending_is,
        other_committed k,
        rw (applied-commit_pending s' k) (load-commit_pending s' _ ∙ staged.applied_kept k),
      )

  -- After a change is staged and everything is reverted, what is committed and what was last
  -- applied are, for every type, as before the change, and nothing is pending.
  pub stage_then_revert :
      (k : String)
      → (load (revert_pending s').1 (committed k (revert_pending s').1) ≡ load s (committed k s))
        × (load (revert_pending s').1 (last_applied k (revert_pending s').1)
            ≡ load s (last_applied k s))
        × (pending k (revert_pending s').1 ≡ none)
  stage_then_revert k = (
    rw (committed-revert_pending s' k) (load-revert_pending s' _ ∙ staged.committed_kept k),
    rw (applied-revert_pending s' k) (load-revert_pending s' _ ∙ staged.applied_kept k),
    pending-revert_pending s' k,
  )
