-- ===== src/Daemon/Commit/Handled.antt =====
-- What a commit request changes.
use jack.Base.{
  String, ◌≡◌, refl, sym, false, ◌&&◌, none, some, List, [], ◌∷◌, is_some, if◌then◌else◌,
}
use jack.Base.Outcome.{Outcome, ok, err, panic, is_ok}
use jack.Validation.{Error}
use jack.Daemon.Registry.{PluginRegistry}
use jack.Daemon.State.{State, get_pending_types, commit_pending}
use jack.Daemon.State.Pending.{commit_pending_none}
use jack.Daemon.Commit.{
  Backend, commit_types, commit_answer, commit_validated, validate_pending, handle_commit,
}

module _ (backend : Backend) (registry : PluginRegistry) where
  answered_state :
      (types : List String) (o : Outcome (Unit {0})) (s : State) (files : backend.Files)
      → (commit_answer backend registry types o s files).1 ≡ s
  unfolding commit_answer
  answered_state types (ok done) s files = refl
  answered_state types (err e) s files = refl
  answered_state types (panic e) s files = refl

  committed_state :
      (types : List String) (s : State) (files : backend.Files)
      → get_pending_types s ≡ types
      → (commit_types backend registry types s files).1 ≡ (commit_pending s).1
  unfolding commit_types
  committed_state [] s files e = sym (commit_pending_none s e)
  committed_state (type ∷ types) s files e =
      answered_state (type ∷ types) (commit_pending s).0 (commit_pending s).1 files

  validated :
      (v : Error) (s : State) (files : backend.Files)
      → ((commit_validated backend registry v s files).1
          ≡ (if is_some v then s else (commit_pending s).1))
        × ((commit_validated backend registry v s files).2
            ≡ (if is_some v then files else (commit_validated backend registry v s files).2))
        × ((is_some v && is_ok (commit_validated backend registry v s files).0) ≡ false)
  unfolding commit_validated
  validated none s files = (committed_state (get_pending_types s) s files refl, refl, refl)
  validated (some e) s files = (refl, refl, refl)

  -- A commit whose validation finds an error changes neither the state nor a file, and is answered
  -- with an error. Otherwise the state is as `CommitPending` leaves it, whether or not the
  -- configurations can be saved.
  pub handle_commit_lem :
      (s : State) (files : backend.Files)
      → ((handle_commit backend registry s files).1
          ≡ (if is_some (validate_pending backend registry s) then s else (commit_pending s).1))
        × ((handle_commit backend registry s files).2 ≡ (
            if is_some (validate_pending backend registry s)
            then files
            else (handle_commit backend registry s files).2))
        × ((is_some (validate_pending backend registry s)
              && is_ok (handle_commit backend registry s files).0)
            ≡ false)
  unfolding handle_commit
  handle_commit_lem s files = validated (validate_pending backend registry s) s files
