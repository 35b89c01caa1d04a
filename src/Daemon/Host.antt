-- ===== src/Daemon/Host.antt =====
-- What the daemon calls outside its own state: the kernel by way of system/, the processes of the
-- plugins, the configuration files of state/manager.go, and the encoding of a configuration.
use jack.Base.{◌≡◌, String, Bool, true, Option, List}
use jack.Base.Outcome.{Outcome}
use jack.Types.Network.{Interface, RoutesConfig}
use jack.Validation.{Error}
use jack.Daemon.Config.{Config}
use jack.Daemon.Plugin.{Plugin}

pub record Host : Type 1 where
  pub World : Type 0
  pub Snapshot : Type 0
  -- `CaptureSystemSnapshot`, with the id of the snapshot
  pub capture : World → Outcome (String × Snapshot)
  -- a snapshot renamed `manual-<its time>`, with that id
  pub renamed : Snapshot → String × Snapshot
  pub nftables_rules : Snapshot → String
  pub restore_nftables : String → World → Error × World
  -- `RestoreSnapshot`, for the steps that were applied
  pub restore : Snapshot → List String → World → Error × World
  pub enable_ip_forwarding : World → Error × World
  pub apply_interface : String → Interface → World → Error × World
  pub apply_routes : RoutesConfig → World → Error × World
  -- the RPC methods of a plugin
  pub apply_config : Plugin → Option Config → World → Error × World
  pub flush : Plugin → World → Error × World
  -- `LoadPlugin`, for the dependencies that a plugin names; `none` if it cannot be loaded
  pub dependencies : World → String → Option (List String)
  -- `LoadConfig`
  pub load_plugin_config : String → World → Outcome Config
  pub load_routes : World → Outcome RoutesConfig
  -- `reflect.DeepEqual` and `json.Marshal`
  pub deep_equal : Config → Config → Bool
  pub marshal : Config → Outcome String
  pub deep_equal_refl : (c : Config) → deep_equal c c ≡ true
