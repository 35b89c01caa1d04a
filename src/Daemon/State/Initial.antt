-- ===== src/Daemon/State/Initial.antt =====
-- `NewState` in daemon/state.go.
use jack.Base.{◌≡◌, refl, arith, String}
use jack.Base.Maps.{lookup}
use jack.Daemon.State.{new_entry, new_state, entry_or_new}
use jack.Daemon.State.Isolation.{IsIsolated}

entry-new_state : (k : String) → entry_or_new k new_state ≡ new_entry
unfolding entry_or_new lookup
entry-new_state k = refl

pub new_state-IsIsolated : IsIsolated new_state
new_state-IsIsolated = record {
  committed_there = λ k a e. ground (arith, entry-new_state k);
  pending_there = λ k a e. ground (arith, entry-new_state k);
  applied_there = λ k a e. ground (arith, entry-new_state k);
  not_committed = λ k j a e. ground (arith, entry-new_state k);
  not_applied = λ k j a e. ground (arith, entry-new_state k);
  own = λ k j a e. ground (arith, entry-new_state k);
  own_map = λ a. refl;
}
