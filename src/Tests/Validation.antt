-- ===== src/Tests/Validation.antt =====
-- The checks of validation/ and of types/types.go at small values.
use jack.Base.{
  ℕ, ◌+◌, ◌^◌, ◌≤◌, ◌≡◌, ◌↔◌, ◌==◌, [], true, false, not, ◌&&◌, ◌||◌, some, none, arith,
  if◌then◌else◌,
}
use jack.Base.Int.{pos, ltz}
use jack.Types.Network.{Route}
use jack.Types.Validate.{peer_validate, interface_validate}
use jack.Types.Validate.Laws.{
  accepted, all_accepted, empty_or, ipv6_accepted, accepted-interface_validate,
}
use jack.Validation.{
  Parsers, ip4, validate_port, validate_mtu, validate_vlan_id, validate_table_id, validate_metric,
  validate_ip, validate_mac, validate_wire_guard_key,
}
use jack.Validation.Netmask.{is_contiguous, validate_netmask, word}
use jack.Validation.Netmask.Laws.{is_contiguous_lem}
use jack.Validation.Ranges.{InRange, integer_checks}
use jack.Daemon.Path.{new_route}
use jack.Tests.Paths.{bare_interface}

-- parsers that know one text each
abbrev pub parsers : Parsers
parsers = record {
  parse_ip = λ s. if s == "10.0.0.1" then some (ip4 10 0 0 1) else none;
  parse_cidr = λ s. s == "10.0.0.0/8";
  parse_mac = λ s. s == "00:11:22:33:44:55";
  decode_base64 = λ s. none;
  split_host_port = λ s. none;
  atoi = λ s. if s == "24" then some (pos 24) else none;
  trim_space = λ s. s;
  to_upper = λ s. s;
  matches_domain = λ s. false;
  trim_wildcard = λ s. s;
}

is_contiguous_lem_example :
    (is_contiguous (word 255 255 255 0) ≡ true)
    ↔ ((zeros : ℕ) × (zeros ≤ 32) × (word 255 255 255 0 + 2 ^ zeros ≡ 2 ^ 32))
unfolding word
is_contiguous_lem_example = is_contiguous_lem (word 255 255 255 0) (omega arith)

integer_checks_example :
    ((validate_port (pos 8080) ≡ none) ↔ InRange 1 65535 (pos 8080))
    × ((validate_mtu (pos 8080) ≡ none) ↔ InRange 68 65535 (pos 8080))
    × ((validate_vlan_id (pos 8080) ≡ none) ↔ InRange 1 4094 (pos 8080))
    × ((validate_table_id (pos 8080) ≡ none) ↔ InRange 0 4294967295 (pos 8080))
    × ((validate_metric (pos 8080) ≡ none) ↔ ((m : ℕ) × (pos 8080 ≡ pos m)))
integer_checks_example = integer_checks (pos 8080)

abbrev default_route : Route
default_route = record new_route { name = "default"; destination = "default"; gateway = "10.0.0.1" }

accepted-interface_validate_example : accepted (interface_validate parsers bare_interface) ≡ (
    (not (ltz (pos 0) (pos 1500)) || accepted (validate_mtu (pos 1500)))
    && (not ("static" == "static") || empty_or (validate_ip parsers) "")
    && empty_or (validate_netmask parsers) ""
    && empty_or (validate_mac parsers) ""
    && (not ("physical" == "vlan")
        || not (ltz (pos 0) (pos 0))
        || accepted (validate_vlan_id (pos 0)))
    && empty_or (validate_ip parsers) ""
    && all_accepted (validate_ip parsers) []
    && (not (ltz (pos 0) (pos 0)) || accepted (validate_port (pos 0)))
    && empty_or (validate_wire_guard_key parsers) ""
    && all_accepted (peer_validate parsers) []
    && ipv6_accepted parsers none)
accepted-interface_validate_example = accepted-interface_validate parsers bare_interface
