-- ===== src/Daemon/Config.antt =====
-- What a `Committed interface{}` of daemon/state.go can point to.
use jack.Types.Value.{Fields}
use jack.Types.Network.{InterfacesConfig, RoutesConfig, JackConfig}

-- `nil_map` is a nil `map[string]interface{}`.
pub data Config : Type 0 where
  interfaces : InterfacesConfig → Config
  routes : RoutesConfig → Config
  jack_config : JackConfig → Config
  plugin : Fields → Config
  nil_map : Config
