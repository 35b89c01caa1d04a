-- ===== src/Types/Network.antt =====
-- The structs of types/types.go and types/jack.go. A map field is an `Option`: `none` is a nil map,
-- which reads as empty and cannot be assigned to. A slice is a list: a nil slice is told from an
-- empty one only in Daemon/Diff, where it matters.
use jack.Base.{String, Bool, Option, List}
use jack.Base.Int.{ℤ}
use jack.Base.Maps.{Map}

pub record Ipv6Config : Type 0 where
  pub protocol : String
  pub ip6_addr : String
  pub ip6_gw : String
  pub ip6_prefix : String
  pub dns6 : List String
  pub enabled : Bool

pub record WireGuardPeer : Type 0 where
  pub public_key : String
  pub preshared_key : String
  pub endpoint : String
  pub comment : String
  pub allowed_ips : List String
  pub persistent_keepalive : ℤ

pub record Interface : Type 0 where
  pub ipv6 : Option Ipv6Config
  pub gateway : String
  pub comment : String
  pub mac : String
  pub type : String
  pub device : String
  pub device_name : String
  pub protocol : String
  pub ip_addr : String
  pub wg_private_key : String
  pub netmask : String
  pub bridge_ports : List String
  pub dns : List String
  pub wg_peers : List WireGuardPeer
  pub metric : ℤ
  pub mtu : ℤ
  pub bridge_forward_delay : ℤ
  pub vlan_id : ℤ
  pub wg_listen_port : ℤ
  pub enabled : Bool
  pub bridge_stp : Bool

pub record InterfacesConfig : Type 0 where
  pub interfaces : Option (Map Interface)
  pub version : String

pub record Route : Type 0 where
  pub name : String
  pub destination : String
  pub gateway : String
  pub interface : String
  pub comment : String
  pub metric : ℤ
  pub table : ℤ
  pub enabled : Bool

pub record RoutesConfig : Type 0 where
  pub routes : Option (Map Route)
  pub version : String

pub record PluginState : Type 0 where
  pub version : String
  pub enabled : Bool

pub record ObserverConfig : Type 0 where
  pub enabled : Bool
  pub auto_reconcile : Bool
  pub reconcile_interval_ms : ℤ

pub record LoggingConfig : Type 0 where
  pub level : String
  pub format : String
  pub outputs : List String
  pub file : String

pub record JackConfig : Type 0 where
  pub plugins : Option (Map PluginState)
  pub observer : Option ObserverConfig
  pub logging : Option LoggingConfig
  pub version : String
