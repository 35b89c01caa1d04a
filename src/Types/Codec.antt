-- ===== src/Types/Codec.antt =====
-- encoding/json at the configuration structs, as a parameter of the model: the conversion of a
-- decoded JSON value into a struct or a map of structs (`json.Marshal` followed by
-- `json.Unmarshal`), and of a struct into a decoded map.
use jack.Base.{◌≡◌, Option, none, List}
use jack.Base.Maps.{Map}
use jack.Base.Outcome.{Outcome, ok}
use jack.Types.Value.{Value, Fields, null}
use jack.Types.Network.{Interface, Route, InterfacesConfig, RoutesConfig, JackConfig}

pub record Codec : Type 0 where
  pub to_interface : Value → Outcome Interface
  pub to_interfaces : Value → Outcome (Option (Map Interface))
  pub to_route : Value → Outcome Route
  pub to_routes : Value → Outcome (Option (Map Route))
  pub to_route_list : Value → Outcome (List Route)
  pub from_interfaces : InterfacesConfig → Fields
  pub from_routes : RoutesConfig → Fields
  pub from_jack : JackConfig → Fields
  -- JSON null leaves the variable that it is decoded into as it is, here a nil map
  pub to_interfaces-null : to_interfaces null ≡ ok none
  pub to_routes-null : to_routes null ≡ ok none
