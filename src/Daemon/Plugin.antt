-- ===== src/Daemon/Plugin.antt =====
-- plugins/plugin.go and plugins/rpc.go: what a loaded plugin says of itself, with the services that
-- daemon/loader.go keeps beside it. The plugin's process is behind an RPC connection; what it does
-- with a configuration is a parameter where the daemon asks it.
use jack.Base.{ℕ, String, Option, List}
use jack.Types.Value.{Fields}

pub record PluginMetadata : Type 0 where
  pub namespace : String
  pub version : String
  pub description : String
  pub category : String
  pub config_path : String
  pub default_config : Option Fields
  pub dependencies : List String
  pub path_prefix : String

pub record ServiceDescriptor : Type 0 where
  pub name : String
  pub description : String
  pub methods : List String

-- `PluginLoader`; `client` stands for the connection to the plugin's process.
pub record Plugin : Type 0 where
  pub client : ℕ
  pub metadata : PluginMetadata
  pub provided_services : List ServiceDescriptor
  pub required_services : List String
