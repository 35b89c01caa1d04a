-- ===== src/Validation.antt =====
-- validation/validation.go: the checks of single values. A Go `error` is `none` or the fixed text of
-- its message. The parsers of package net, of strconv, of base64 and the regular expression are
-- behind `Parsers`.
pub mod Collector
pub mod Netmask
pub mod Ranges
use Prim.Native.Char.{Char}
use jack.Base.{
  ℕ, ◌+◌, ◌-◌, ◌*◌, ◌/◌, ◌%◌, ◌^◌, zero, suc, String, ◌==◌, Bool, true, false, not, ◌&&◌, ◌||◌,
  Option, none, some, List, [], ◌∷◌, ltb, leb, eqb, is_some, if◌then◌else◌,
}
use jack.Base.Int.{ℤ, pos, ltz}
use jack.Base.Text.{split, contains}
use jack.Base.Lists.{length}

abbrev pub Error : Type 0
Error = Option String

-- An address, as `To4` tells the two kinds apart.
pub data Address : Type 0 where
  ip4 : ℕ → ℕ → ℕ → ℕ → Address
  ip6 : Address

pub record Parsers : Type 0 where
  pub parse_ip : String → Option Address
  pub parse_cidr : String → Bool
  pub parse_mac : String → Bool
  -- the number of bytes that the text decodes to
  pub decode_base64 : String → Option ℕ
  pub split_host_port : String → Option (String × String)
  pub atoi : String → Option ℤ
  pub trim_space : String → String
  pub to_upper : String → String
  pub matches_domain : String → Bool
  pub trim_wildcard : String → String

abbrev pub refuse : Bool → String → Error
refuse false message = none
refuse true message = some message

-- `if err != nil { return ... }`
infixr 5 ◌then_check◌
abbrev pub ◌then_check◌ : Error → Error → Error
none then_check next = next
some message then_check next = some message

unfoldable pub validate_port : ℤ → Error
validate_port port = refuse (ltz port (pos 1) || ltz (pos 65535) port) "port out of valid range"

unfoldable pub validate_mtu : ℤ → Error
validate_mtu mtu = refuse (ltz mtu (pos 68) || ltz (pos 65535) mtu) "MTU out of valid range"

unfoldable pub validate_vlan_id : ℤ → Error
validate_vlan_id id = refuse (ltz id (pos 1) || ltz (pos 4094) id) "VLAN ID out of valid range"

unfoldable pub validate_table_id : ℤ → Error
validate_table_id id =
    refuse (ltz id (pos 0) || ltz (pos 4294967295) id) "table ID out of valid range"

unfoldable pub validate_metric : ℤ → Error
validate_metric metric = refuse (ltz metric (pos 0)) "metric cannot be negative"

unfoldable pub validate_protocol : String → List String → Error
validate_protocol proto allowed = if proto == "" then none else among allowed
  where
    among : List String → Error
    among [] = some "invalid protocol"
    among (valid ∷ more) = let rest = among more in if proto == valid then none else rest

-- the characters of a text: the texts that are measured are ASCII
unfoldable pub text_length : String → ℕ
text_length String.[] = 0
text_length (String.◌∷◌ c s) = suc (text_length s)

abbrev dash : Char
dash = "-"

abbrev full_stop : Char
full_stop = "."

module _ (parsers : Parsers) where
  abbrev port_range : Option ℤ → Option ℤ → Error
  port_range none end = some "invalid start port in range"
  port_range (some start) none = some "invalid end port in range"
  port_range (some start) (some end) =
      validate_port start
      then_check (validate_port end
          then_check refuse (not (ltz start end)) "start port must be less than end port")

  port_parts : List String → Error
  port_parts (start ∷ end ∷ []) =
      port_range (parsers.atoi (parsers.trim_space start)) (parsers.atoi (parsers.trim_space end))
  port_parts parts = some "invalid port range format"

  single_port : Option ℤ → Error
  single_port none = some "invalid port number"
  single_port (some port) = validate_port port

  unfoldable pub validate_port_string : String → Error
  unfolding port_parts single_port
  validate_port_string text =
      if text == ""
      then some "port string cannot be empty"
      else if contains dash text
      then port_parts (split dash text)
      else single_port (parsers.atoi (parsers.trim_space text))

  unfoldable pub validate_ip : String → Error
  validate_ip ip =
      if ip == ""
      then some "IP address cannot be empty"
      else refuse (not (is_some (parsers.parse_ip ip))) "invalid IP address"

  unfoldable pub validate_cidr : String → Error
  validate_cidr cidr =
      if cidr == ""
      then some "CIDR cannot be empty"
      else if cidr == "default"
      then none
      else refuse (not (parsers.parse_cidr cidr)) "invalid CIDR notation"

  unfoldable pub validate_policy : String → Error
  validate_policy policy =
      let normalized = parsers.to_upper policy in
      if policy == ""
      then some "policy cannot be empty"
      else refuse
          (not (normalized == "ACCEPT")
            && not (normalized == "DROP")
            && not (normalized == "REJECT"))
          "invalid policy"

  unfoldable pub validate_mac : String → Error
  validate_mac mac =
      if mac == "" then none else refuse (not (parsers.parse_mac mac)) "invalid MAC address"

  check_labels : List String → Error
  check_labels [] = none
  check_labels (label ∷ labels) =
      let rest = check_labels labels in
      if ltb 63 (text_length label) then some "domain label too long" else rest

  unfoldable pub validate_domain : String → Error
  unfolding check_labels
  validate_domain domain =
      if domain == ""
      then none
      else if not (parsers.matches_domain domain)
      then some "invalid domain name"
      else if ltb 253 (text_length domain)
      then some "domain name too long"
      else check_labels (split full_stop (parsers.trim_wildcard domain))

  abbrev key_length : Option ℕ → Error
  key_length none = some "invalid WireGuard key (not valid base64)"
  key_length (some size) = refuse (not (eqb size 32)) "invalid WireGuard key length"

  unfoldable pub validate_wire_guard_key : String → Error
  validate_wire_guard_key key =
      if key == ""
      then some "WireGuard key cannot be empty"
      else key_length (parsers.decode_base64 key)

  abbrev endpoint_port : Option ℤ → Error
  endpoint_port none = some "invalid endpoint port"
  endpoint_port (some port) = validate_port port

  endpoint_parts : Option (String × String) → Error
  endpoint_parts none = some "invalid endpoint format"
  endpoint_parts (some (host, port)) =
      (if is_some (parsers.parse_ip host) then none else validate_domain host)
      then_check endpoint_port (parsers.atoi port)

  unfoldable pub validate_endpoint : String → Error
  unfolding endpoint_parts
  validate_endpoint endpoint =
      if endpoint == "" then none else endpoint_parts (parsers.split_host_port endpoint)
