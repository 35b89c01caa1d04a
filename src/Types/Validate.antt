-- ===== src/Types/Validate.antt =====
-- The `Validate` methods of types/types.go: every check is made, and the errors are collected.
pub mod Laws
use Prim.Native.String.{◌++◌ as append}
use jack.Base.{
  ℕ, ◌+◌, String, ◌==◌, Bool, true, false, not, ◌&&◌, Option, none, some, List, [], ◌∷◌,
  if◌then◌else◌,
}
use jack.Base.Int.{pos, ltz}
use jack.Base.Decimal.{decimal}
use jack.Validation.{
  Error, Parsers, validate_metric, validate_table_id, validate_cidr, validate_ip, validate_mtu,
  validate_mac, validate_vlan_id, validate_port, validate_wire_guard_key, validate_endpoint,
}
use jack.Validation.Netmask.{validate_netmask}
use jack.Validation.Collector.{ErrorCollector, new_collector, with_context, check, check_msg, error}
use jack.Types.Network.{Ipv6Config, WireGuardPeer, Interface, Route}

-- `if b { check }`
abbrev pub when : Bool → Error → Error
when false e = none
when true e = e

-- A loop of checks, each with the text of what it checks in its message.
unfoldable pub check_each :
    (String → Error) → String → List String → ErrorCollector → ErrorCollector
check_each validate message [] ec = ec
check_each validate message (x ∷ xs) ec =
    check_each validate message xs (check_msg (validate x) (append message x) ec)

module _ (parsers : Parsers) where
  unfoldable pub route_validate : Route → Error
  route_validate r =
      let v = with_context (append "route " r.name) new_collector in
      let v = check (validate_metric r.metric) v in
      let v = check (validate_table_id r.table) v in
      let v = check_msg (validate_cidr parsers r.destination) "invalid destination" v in
      let gateway = when (not (r.gateway == "")) (validate_ip parsers r.gateway) in
      error (check_msg gateway "invalid gateway" v)

  unfoldable pub peer_validate : WireGuardPeer → Error
  peer_validate p =
      let key = validate_wire_guard_key parsers in
      let v = check_msg (key p.public_key) "invalid public key" new_collector in
      let v =
        check_msg (when (not (p.preshared_key == "")) (key p.preshared_key)) "invalid preshared key"
          v in
      let v =
        check_msg (when (not (p.endpoint == "")) (validate_endpoint parsers p.endpoint))
          "invalid endpoint" v in
      error (check_each (validate_cidr parsers) "invalid allowed IP " p.allowed_ips v)

  unfoldable pub ipv6_validate : Ipv6Config → Error
  ipv6_validate c =
      let ip = validate_ip parsers in
      let v = with_context "IPv6" new_collector in
      let v = check_msg (when (not (c.ip6_addr == "")) (ip c.ip6_addr)) "invalid address" v in
      let v = check_msg (when (not (c.ip6_gw == "")) (ip c.ip6_gw)) "invalid gateway" v in
      error (check_each ip "invalid DNS server " c.dns6 v)

  unfoldable pub check_peers : ℕ → List WireGuardPeer → ErrorCollector → ErrorCollector
  check_peers idx [] ec = ec
  check_peers idx (p ∷ ps) ec =
      check_peers (idx + 1) ps (check_msg (peer_validate p) (append "peer " (decimal idx)) ec)

  check_ipv6 : Option Ipv6Config → ErrorCollector → ErrorCollector
  check_ipv6 none ec = ec
  check_ipv6 (some c) ec = check (ipv6_validate c) ec

  unfoldable pub interface_validate : Interface → Error
  unfolding check_ipv6
  interface_validate i =
      let ip = validate_ip parsers in
      let v = with_context "interface" new_collector in
      let v = check (when (ltz (pos 0) i.mtu) (validate_mtu i.mtu)) v in
      let v =
        check_msg (when (i.protocol == "static" && not (i.ip_addr == "")) (ip i.ip_addr))
          "invalid IP address" v in
      let v = check (when (not (i.netmask == "")) (validate_netmask parsers i.netmask)) v in
      let v = check (when (not (i.mac == "")) (validate_mac parsers i.mac)) v in
      let v =
        check (when (i.type == "vlan" && ltz (pos 0) i.vlan_id) (validate_vlan_id i.vlan_id)) v in
      let v = check_msg (when (not (i.gateway == "")) (ip i.gateway)) "invalid gateway" v in
      let v = check_each ip "invalid DNS server " i.dns v in
      let v =
        check_msg (when (ltz (pos 0) i.wg_listen_port) (validate_port i.wg_listen_port))
          "invalid WireGuard listen port" v in
      let v =
        check_msg
          (when (not (i.wg_private_key == "")) (validate_wire_guard_key parsers i.wg_private_key))
          "invalid WireGuard private key" v in
      let v = check_peers 0 i.wg_peers v in error (check_ipv6 i.ipv6 v)
