-- ===== src/Daemon/Commit.antt =====
-- The handlers of daemon/server.go that end a transaction: commit, with the validation before it,
-- and revert. What the processes of the plugins answer and the writing of files are behind
-- `Backend`.
pub mod Valid
pub mod Handled
pub mod Transactions
use Prim.Native.String.{◌++◌ as append}
use jack.Base.{
  ℕ, String, ◌==◌, Bool, true, false, not, ◌&&◌, Option, none, some, List, [], ◌∷◌, if◌then◌else◌,
}
use jack.Base.Maps.{Map, entries}
use jack.Base.Outcome.{Outcome, ok, err, panic}
use jack.Types.Network.{Interface, Route}
use jack.Types.Validate.{interface_validate, route_validate}
use jack.Validation.{Error, Parsers}
use jack.Validation.Collector.{ErrorCollector, new_collector, check, check_msg, error}
use jack.Daemon.Config.{Config, interfaces, routes}
use jack.Daemon.Plugin.{Plugin}
use jack.Daemon.Registry.{PluginRegistry, get, get_plugin_name_for_namespace}
use jack.Daemon.State.{
  State, Ref, load, get_current, get_committed, get_pending_types, commit_pending, revert_pending,
}

pub record Backend : Type 1 where
  pub parsers : Parsers
  -- the RPC method `ValidateConfig` of a plugin
  pub validate_config : Plugin → Option Config → Error
  -- `SaveConfig` of state/manager.go: the file of the name is written
  pub Files : Type 0
  pub save_config : String → Option Config → Files → Error × Files

-- A response: `ok` with its message, or `err` with its error.
abbrev pub Response : Type 0
Response = Outcome String

module _ (backend : Backend) (registry : PluginRegistry) where
  unfoldable pub check_interfaces : Map Interface → ErrorCollector → ErrorCollector
  check_interfaces [] v = v
  check_interfaces ((name, i) ∷ m) v =
      check_interfaces m
        (check_msg (interface_validate backend.parsers i) (append "interface " name) v)

  unfoldable pub check_routes : Map Route → ErrorCollector → ErrorCollector
  check_routes [] v = v
  check_routes ((name, r) ∷ m) v = check_routes m (check (route_validate backend.parsers r) v)

  -- The cases of the switch; a type assertion that fails skips the check.
  interfaces_case : Option Config → ErrorCollector → ErrorCollector
  interfaces_case (some (interfaces c)) v = check_interfaces (entries c.interfaces) v
  interfaces_case other v = v

  routes_case : Option Config → ErrorCollector → ErrorCollector
  routes_case (some (routes c)) v = check_routes (entries c.routes) v
  routes_case other v = v

  plugin_case : String → Option Config → Option Plugin → ErrorCollector → ErrorCollector
  plugin_case type config none v = v
  plugin_case type config (some plugin) v =
      check_msg (backend.validate_config plugin config) (append type " plugin") v

  unfoldable pub check_config : String → Option Config → ErrorCollector → ErrorCollector
  unfolding interfaces_case routes_case plugin_case
  check_config type config v =
      if type == "interfaces"
      then interfaces_case config v
      else if type == "routes"
      then routes_case config v
      else plugin_case type config (get type registry) v

  abbrev check_current : String → State → Outcome Ref → ErrorCollector → ErrorCollector
  check_current type s (ok config) v = check_config type (load s config) v
  check_current type s (err e) v = check_msg (some e) (append "failed to get " type) v
  check_current type s (panic e) v = v

  unfoldable pub check_types : List String → State → ErrorCollector → ErrorCollector
  check_types [] s v = v
  check_types (type ∷ types) s v = check_types types s (check_current type s (get_current type s) v)

  unfoldable pub validate_pending : State → Error
  validate_pending s = error (check_types (get_pending_types s) s new_collector)

  -- Core configurations are saved under their type, plugin configurations under the name of the
  -- plugin if it has one.
  abbrev plugin_filename : String → Option String → String
  plugin_filename type none = type
  plugin_filename type (some name) = name

  unfoldable pub filename : String → String
  filename type =
      if not (type == "interfaces") && not (type == "routes")
      then plugin_filename type (get_plugin_name_for_namespace type registry)
      else type

  -- The loop stops at the first error; what it saved before stays.
  unfoldable pub save_committed : List String → State → backend.Files → Response × backend.Files
  save_committed [] s files = (ok "Changes committed", files)
  save_committed (type ∷ types) s files = elim (get_committed type s) [
    | ok config ↦
        let (saved, files') = backend.save_config (filename type) (load s config) files in
        let rest = save_committed types s files' in
        elim saved [ none ↦ rest | some e ↦ (err "failed to save config", files') ]
    | err e ↦ (err "failed to get committed config", files)
    | panic e ↦ (panic e, files)
  ]

  -- What `CommitPending` returned is answered.
  commit_answer :
      List String → Outcome (Unit {0}) → State → backend.Files → Response × State × backend.Files
  commit_answer types (ok done) s files =
      let (response, files') = save_committed types s files in (response, s, files')
  commit_answer types (err e) s files = (err e, s, files)
  commit_answer types (panic e) s files = (panic e, s, files)

  commit_types : List String → State → backend.Files → Response × State × backend.Files
  unfolding commit_answer
  commit_types [] s files = (ok "No pending changes to commit", s, files)
  commit_types types s files =
      let (committed, s') = commit_pending s in commit_answer types committed s' files

  commit_validated : Error → State → backend.Files → Response × State × backend.Files
  unfolding commit_types
  commit_validated (some e) s files = (err (append "validation failed:\n" e), s, files)
  commit_validated none s files = commit_types (get_pending_types s) s files

  unfoldable pub handle_commit : State → backend.Files → Response × State × backend.Files
  unfolding commit_validated
  handle_commit s files = commit_validated (validate_pending s) s files

unfoldable pub handle_revert : State → Response × State
handle_revert s =
    let (reverted, s') = revert_pending s in
    elim reverted [
      | ok done ↦ (ok "Pending changes discarded", s')
      | err e ↦ (err e, s')
      | panic e ↦ (panic e, s')
    ]
