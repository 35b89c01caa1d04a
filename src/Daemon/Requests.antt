-- ===== src/Daemon/Requests.antt =====
-- The calls that change the configuration state, in any sequence: loading a file at start, `set`,
-- commit, revert, and the record that a committed configuration was applied.
pub mod Spec
pub mod Refines
use jack.Base.{String, Option, some, List, [], ◌∷◌}
use jack.Base.Outcome.{Outcome, ok}
use jack.Types.Codec.{Codec}
use jack.Types.Value.{Value}
use jack.Daemon.Config.{Config}
use jack.Daemon.State.{
  State, alloc, load_committed, commit_pending, revert_pending, set_last_applied, entry_or_new,
}
use jack.Daemon.Registry.{PluginRegistry}
use jack.Daemon.Server.{handle_set}

pub data Request : Type 0 where
  load_file : String → Config → Request
  set : String → Value → Request
  commit revert : Request
  applied : String → Request

-- An error leaves the state as it is.
abbrev pub or_unchanged : State → Outcome State → State
or_unchanged s (ok s') = s'
or_unchanged s failed = s

module _ (codec : Codec) (registry : PluginRegistry) where
  unfoldable pub serve : Request → State → State
  serve (load_file type c) s = load_committed type (some (alloc c s).0) (alloc c s).1
  serve (set path v) s = or_unchanged s (handle_set codec registry path v s)
  serve commit s = (commit_pending s).1
  serve revert s = (revert_pending s).1
  serve (applied type) s = set_last_applied type (entry_or_new type s).committed s

  unfoldable pub serve_all : List Request → State → State
  serve_all [] s = s
  serve_all (r ∷ rs) s = serve_all rs (serve r s)
