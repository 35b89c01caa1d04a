-- ===== src/Tests/State.antt =====
-- daemon/state.go at a state with two plugin configurations, one of them changed.
use jack.Base.{◌≡◌, [], true, false, some, none, if◌then◌else◌, is_some}
use jack.Daemon.Server.{stage}
use jack.Daemon.Server.Staging.{stage_fresh}
use jack.Base.Outcome.{ok, err}
use jack.Types.Value.{bool, field, end}
use jack.Daemon.Config.{Config, plugin}
use jack.Daemon.State.{
  State, new_state, alloc, load_committed, entry_or_new, commit_pending, get_pending_types,
}
use jack.Daemon.State.Pending.{is_empty, commit_pending_lem}
use jack.Daemon.State.Isolation.{IsIsolated, load_committed-IsIsolated}
use jack.Daemon.State.Initial.{new_state-IsIsolated}

abbrev pub led : Config
led = plugin (field "enabled" (bool false) end)

abbrev pub loaded : State
loaded = load_committed "led" (some (alloc led new_state).0) (alloc led new_state).1

pub loaded-IsIsolated : IsIsolated loaded
loaded-IsIsolated = load_committed-IsIsolated "led" led new_state-IsIsolated

abbrev pub led_on : Config
led_on = plugin (field "enabled" (bool true) end)

-- the committed configuration is copied and changed
abbrev pub changed : State
changed = stage "led" (some loaded.next) led_on (alloc led loaded).1

pub changed-IsIsolated : IsIsolated changed
changed-IsIsolated = (stage_fresh "led" led_on led loaded loaded-IsIsolated).isolated

commit_pending_lem_example :
    (entry_or_new "led" (commit_pending changed).1 ≡ (
      if is_some (entry_or_new "led" changed).pending
      then record {
        committed = (entry_or_new "led" changed).pending;
        pending = none;
        last_applied = (entry_or_new "led" changed).last_applied;
      }
      else entry_or_new "led" changed))
    × (get_pending_types (commit_pending changed).1 ≡ [])
    × ((commit_pending changed).0 ≡ (
        if is_empty (get_pending_types changed) then err "no pending changes to commit" else ok tt))
commit_pending_lem_example = commit_pending_lem "led" changed
