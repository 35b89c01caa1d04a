-- ===== src/Tests/Commit.antt =====
-- The commit handler at a state with one changed plugin configuration.
use jack.Base.{
  ◌≡◌, ◌≢◌, refl, String, List, ◌∷◌, [], true, false, ◌&&◌, some, none, is_some, if◌then◌else◌,
}
use jack.Base.Lists.{mem}
use jack.Base.Maps.{insert, lookup}
use jack.Base.Outcome.{ok, is_ok}
use jack.Validation.Collector.{error}
use jack.Daemon.Registry.{new_plugin_registry, get}
use jack.Daemon.State.{
  alloc, store, set_pending, load_committed, load, get_current, get_pending_types, commit_pending,
  revert_pending,
}
use jack.Daemon.State.Isolation.{committed, pending, last_applied}
use jack.Daemon.Server.Staging.{Stages, stage_fresh}
use jack.Daemon.Commit.{Backend, check_types, check_config, validate_pending, handle_commit}
use jack.Daemon.Commit.Valid.{config_accepted, validate_pending-accepted}
use jack.Daemon.Commit.Handled.{handle_commit_lem}
use jack.Daemon.Commit.Transactions.{stage_then_commit, stage_then_revert}
use jack.Tests.State.{led, led_on, loaded, loaded-IsIsolated, changed}
use jack.Tests.Validation.{parsers}

-- every plugin accepts, and every file is written
abbrev backend : Backend
backend = record {
  parsers = parsers;
  validate_config = λ p config. none;
  Files = List String;
  save_config = λ name config files. (none, name ∷ files);
}

valid : validate_pending backend new_plugin_registry changed ≡ none
unfolding validate_pending error check_types get_pending_types set_pending insert store alloc
    load_committed get_current lookup check_config get
valid = refl

validate_pending-accepted_example :
    config_accepted backend new_plugin_registry "led" (load changed (some loaded.next)) ≡ true
unfolding mem get_pending_types set_pending insert store alloc load_committed get_current lookup
validate_pending-accepted_example =
    validate_pending-accepted backend new_plugin_registry changed "led" (some loaded.next) valid
      listed current
  where
    listed : mem "led" (get_pending_types changed) ≡ true
    listed = refl

    current : get_current "led" changed ≡ ok (some loaded.next)
    current = refl

handle_commit_lem_example :
    ((handle_commit backend new_plugin_registry changed []).1 ≡ (
      if is_some (validate_pending backend new_plugin_registry changed)
      then changed
      else (commit_pending changed).1))
    × ((handle_commit backend new_plugin_registry changed []).2 ≡ (
        if is_some (validate_pending backend new_plugin_registry changed)
        then []
        else (handle_commit backend new_plugin_registry changed []).2))
    × ((is_some (validate_pending backend new_plugin_registry changed)
          && is_ok (handle_commit backend new_plugin_registry changed []).0)
        ≡ false)
handle_commit_lem_example = handle_commit_lem backend new_plugin_registry changed []

staged : Stages "led" led_on loaded changed
staged = stage_fresh "led" led_on led loaded loaded-IsIsolated

stage_then_commit_example :
    (load (commit_pending changed).1 (committed "led" (commit_pending changed).1) ≡ some led_on)
    × (◌≢◌ {A = String} "led" "routes"
        → load (commit_pending changed).1 (committed "routes" (commit_pending changed).1) ≡ (
            if is_some (pending "routes" loaded)
            then load loaded (pending "routes" loaded)
            else load loaded (committed "routes" loaded)))
    × (load (commit_pending changed).1 (last_applied "routes" (commit_pending changed).1)
        ≡ load loaded (last_applied "routes" loaded))
stage_then_commit_example = stage_then_commit "led" led_on loaded changed staged "routes"

stage_then_revert_example :
    (load (revert_pending changed).1 (committed "led" (revert_pending changed).1)
      ≡ load loaded (committed "led" loaded))
    × (load (revert_pending changed).1 (last_applied "led" (revert_pending changed).1)
        ≡ load loaded (last_applied "led" loaded))
    × (pending "led" (revert_pending changed).1 ≡ none)
stage_then_revert_example = stage_then_revert "led" led_on loaded changed staged "led"
