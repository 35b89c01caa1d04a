-- ===== src/Types/Validate/Laws.antt =====
-- A configuration is accepted exactly if each of its parts is.
use Prim.Native.String.{◌++◌ as append}
use jack.Base.{
  ℕ, ◌+◌, String, ◌==◌, ◌≡◌, refl, ap, ◌∙◌, Bool, true, not, ◌&&◌, ◌||◌, Option, none, some, List,
  [], ◌∷◌, is_some, arith,
}
use jack.Base.Int.{pos, ltz}
use jack.Validation.{
  Error, Parsers, validate_metric, validate_table_id, validate_cidr, validate_ip, validate_mtu,
  validate_mac, validate_vlan_id, validate_port, validate_wire_guard_key, validate_endpoint,
}
use jack.Validation.Netmask.{validate_netmask}
use jack.Validation.Collector.{
  ErrorCollector, new_collector, with_context, is_clean, check, check_msg, error,
  is_clean-check_msg, is_clean-check,
}
use jack.Types.Network.{Ipv6Config, WireGuardPeer, Interface, Route}
use jack.Types.Validate.{
  when, check_each, route_validate, peer_validate, ipv6_validate, check_peers, check_ipv6,
  interface_validate,
}

abbrev pub accepted : Error → Bool
accepted e = not (is_some e)

unfoldable pub all_accepted {ℓ} : {A : Type ℓ} → (A → Error) → List A → Bool
all_accepted validate [] = true
all_accepted validate (x ∷ xs) = accepted (validate x) && all_accepted validate xs

-- an optional text is accepted if it is empty
abbrev pub empty_or : (String → Error) → String → Bool
empty_or validate text = text == "" || accepted (validate text)

is_clean-check_each :
    (validate : String → Error) (message : String) (xs : List String) (ec : ErrorCollector)
    → is_clean (check_each validate message xs ec) ≡ (is_clean ec && all_accepted validate xs)
unfolding check_each all_accepted
is_clean-check_each validate message [] ec = ground arith
is_clean-check_each validate message (x ∷ xs) ec = ground (
  arith,
  is_clean-check_each validate message xs (check_msg (validate x) (append message x) ec),
  is_clean-check_msg (validate x) (append message x) ec,
)

-- one more check, on a collector of which it is known when it is clean
module _ {b : Bool} (ec : ErrorCollector) (h : is_clean ec ≡ b) where
  also : (e : Error) → is_clean (check e ec) ≡ (b && accepted e)
  also e = is_clean-check e ec ∙ ap (λ c. c && accepted e) h

  also_msg : (e : Error) (message : String) → is_clean (check_msg e message ec) ≡ (b && accepted e)
  also_msg e message = is_clean-check_msg e message ec ∙ ap (λ c. c && accepted e) h

  also_each :
      (validate : String → Error) (message : String) (xs : List String)
      → is_clean (check_each validate message xs ec) ≡ (b && all_accepted validate xs)
  also_each validate message xs =
      is_clean-check_each validate message xs ec ∙ ap (λ c. c && all_accepted validate xs) h

clean : (ctx : String) → is_clean (with_context ctx new_collector) ≡ true
unfolding error
clean ctx = refl

&&-assoc : (a b c : Bool) → ((a && b) && c) ≡ (a && (b && c))
&&-assoc a b c = ground arith

accepted-when : (b : Bool) (e : Error) → accepted (when b e) ≡ (not b || accepted e)
accepted-when b e = ground arith

not-not : (b : Bool) → not (not b) ≡ b
not-not b = ground arith

not-&& : (a b : Bool) → not (a && b) ≡ (not a || not b)
not-&& a b = ground arith

||-assoc : (a b c : Bool) → ((a || b) || c) ≡ (a || (b || c))
||-assoc a b c = ground arith

ruleset bool_laws = (&&-assoc, accepted-when, not-not, not-&&, ||-assoc)

module _ (parsers : Parsers) where
  -- `Route.Validate` accepts a route exactly if its metric, table and destination are valid and
  -- its gateway is empty or an address.
  pub accepted-route_validate :
      (r : Route)
      → accepted (route_validate parsers r) ≡ (
          accepted (validate_metric r.metric)
          && accepted (validate_table_id r.table)
          && accepted (validate_cidr parsers r.destination)
          && empty_or (validate_ip parsers) r.gateway)
  unfolding route_validate
  accepted-route_validate r =
      also_msg _ (also_msg _ (also _ (also _ (clean (append "route " r.name)) _) _) _ _) _ _
      ∙ simp bool_laws

  pub accepted-peer_validate :
      (p : WireGuardPeer)
      → accepted (peer_validate parsers p) ≡ (
          accepted (validate_wire_guard_key parsers p.public_key)
          && empty_or (validate_wire_guard_key parsers) p.preshared_key
          && empty_or (validate_endpoint parsers) p.endpoint
          && all_accepted (validate_cidr parsers) p.allowed_ips)
  unfolding peer_validate
  accepted-peer_validate p =
      also_each _ (also_msg _ (also_msg _ (also_msg _ (clean "") _ _) _ _) _ _) _ _ _
      ∙ simp bool_laws

  pub accepted-ipv6_validate :
      (c : Ipv6Config)
      → accepted (ipv6_validate parsers c) ≡ (
          empty_or (validate_ip parsers) c.ip6_addr
          && empty_or (validate_ip parsers) c.ip6_gw
          && all_accepted (validate_ip parsers) c.dns6)
  unfolding ipv6_validate
  accepted-ipv6_validate c =
      also_each _ (also_msg _ (also_msg _ (clean "IPv6") _ _) _ _) _ _ _ ∙ simp bool_laws

  is_clean-check_peers :
      (idx : ℕ) (ps : List WireGuardPeer) (ec : ErrorCollector)
      → is_clean (check_peers parsers idx ps ec)
        ≡ (is_clean ec && all_accepted (peer_validate parsers) ps)
  unfolding check_peers all_accepted
  is_clean-check_peers idx [] ec = ground arith
  is_clean-check_peers idx (p ∷ ps) ec =
      is_clean-check_peers (idx + 1) ps _
      ∙ ap (λ c. c && all_accepted (peer_validate parsers) ps) (is_clean-check_msg _ _ ec)
      ∙ &&-assoc (is_clean ec) _ _

  abbrev pub ipv6_accepted : Option Ipv6Config → Bool
  ipv6_accepted none = true
  ipv6_accepted (some c) = accepted (ipv6_validate parsers c)

  is_clean-check_ipv6 :
      (c : Option Ipv6Config) (ec : ErrorCollector)
      → is_clean (check_ipv6 parsers c ec) ≡ (is_clean ec && ipv6_accepted c)
  unfolding check_ipv6
  is_clean-check_ipv6 none ec = ground arith
  is_clean-check_ipv6 (some c) ec = is_clean-check (ipv6_validate parsers c) ec

  -- `Interface.Validate` accepts an interface exactly if each field that is set, and that its type
  -- or protocol uses, is valid, and so is each of its name servers, peers and IPv6 settings.
  pub accepted-interface_validate :
      (i : Interface)
      → accepted (interface_validate parsers i) ≡ (
          (not (ltz (pos 0) i.mtu) || accepted (validate_mtu i.mtu))
          && (not (i.protocol == "static") || empty_or (validate_ip parsers) i.ip_addr)
          && empty_or (validate_netmask parsers) i.netmask
          && empty_or (validate_mac parsers) i.mac
          && (not (i.type == "vlan")
              || not (ltz (pos 0) i.vlan_id)
              || accepted (validate_vlan_id i.vlan_id))
          && empty_or (validate_ip parsers) i.gateway
          && all_accepted (validate_ip parsers) i.dns
          && (not (ltz (pos 0) i.wg_listen_port) || accepted (validate_port i.wg_listen_port))
          && empty_or (validate_wire_guard_key parsers) i.wg_private_key
          && all_accepted (peer_validate parsers) i.wg_peers
          && ipv6_accepted i.ipv6)
  unfolding interface_validate
  accepted-interface_validate i =
      is_clean-check_ipv6 i.ipv6 _
      ∙ ap (λ c. c && ipv6_accepted i.ipv6)
          (is_clean-check_peers 0 i.wg_peers _
            ∙ ap (λ c. c && all_accepted (peer_validate parsers) i.wg_peers)
                (also_msg _
                  (also_msg _
                    (also_each _
                      (also_msg _
                        (also _
                          (also _ (also _ (also_msg _ (also _ (clean "interface") _) _ _) _) _) _)
                        _ _)
                      _ _ _)
                    _ _)
                  _ _))
      ∙ simp bool_laws
