-- ===== src/System/Addresses.antt =====
-- system/network_manager.go where it brings the addresses of one link to a static one. An address
-- of netlink is its text; the texts of package net are behind `Addressing`.
pub mod Static
use jack.Base.{
  String, ◌==◌, Bool, true, false, not, ◌&&◌, ◌||◌, Option, none, some, List, [], ◌∷◌,
  if◌then◌else◌,
}
use jack.Base.Outcome.{Outcome, ok, err, panic}
use jack.System.Members.{Kernel, Step, and_then}

pub record Addressing : Type 1 where
  pub Ip : Type 0
  pub Mask : Type 0
  -- `net.ParseIP`, and `net.IPMask(net.ParseIP(netmask).To4())`
  pub parse_ip : String → Option Ip
  pub parse_mask : String → Mask
  pub mask_text : Mask → String
  -- the parts of an address, and the address made of two
  pub ip_of : String → Ip
  pub mask_of : String → Mask
  pub address : Ip → Mask → String
  -- `IP.Equal`
  pub ip_equal : Ip → Ip → Bool

module _ (kernel : Kernel) (net : Addressing) where
  abbrev pub is_desired : net.Ip → net.Mask → String → Bool
  is_desired ip mask a =
      net.ip_equal (net.ip_of a) ip && net.mask_text (net.mask_of a) == net.mask_text mask

  unfoldable pub has_desired : net.Ip → net.Mask → List String → Bool
  has_desired ip mask [] = false
  has_desired ip mask (a ∷ addrs) = is_desired ip mask a || has_desired ip mask addrs

  unfoldable pub unwanted : net.Ip → net.Mask → List String → List String
  unwanted ip mask [] = []
  unwanted ip mask (a ∷ addrs) =
      let rest = unwanted ip mask addrs in if is_desired ip mask a then rest else a ∷ rest

  -- The loop stops at the first error.
  unfoldable pub delete_all : List String → kernel.World → Step kernel
  delete_all [] w = (none, w)
  delete_all (a ∷ addrs) w = and_then kernel (kernel.addr_del a w) (λ w'. delete_all addrs w')

  flush_listed : Outcome (List String) → kernel.World → Step kernel
  flush_listed (ok addrs) w = delete_all addrs w
  flush_listed failed w = (some "failed to list addresses", w)

  unfoldable pub flush_ips : kernel.World → Step kernel
  unfolding flush_listed
  flush_ips w = flush_listed (kernel.addresses w) w

  add_parsed_ip : Option net.Ip → String → kernel.World → Step kernel
  add_parsed_ip none netmask w = (some "invalid IP address", w)
  add_parsed_ip (some ip) netmask w = kernel.addr_add (net.address ip (net.parse_mask netmask)) w

  unfoldable pub set_static_ip : String → String → kernel.World → Step kernel
  unfolding add_parsed_ip
  set_static_ip ip_addr netmask w =
      if ip_addr == "" then (none, w) else add_parsed_ip (net.parse_ip ip_addr) netmask w

  unfoldable pub ensure_address : net.Ip → net.Mask → List String → kernel.World → Step kernel
  ensure_address ip mask addrs w = and_then kernel (delete_all (unwanted ip mask addrs) w) (λ w'.
      if has_desired ip mask addrs then (none, w') else kernel.addr_add (net.address ip mask) w')

  unfoldable pub ensure_listed :
      Outcome (List String) → net.Ip → net.Mask → kernel.World → Step kernel
  ensure_listed (ok addrs) ip mask w = ensure_address ip mask addrs w
  ensure_listed failed ip mask w = (some "failed to list addresses", w)

  unfoldable pub ensure_parsed : Option net.Ip → String → kernel.World → Step kernel
  ensure_parsed none netmask w = (some "invalid IP address", w)
  ensure_parsed (some ip) netmask w =
      ensure_listed (kernel.addresses w) ip (net.parse_mask netmask) w

  unfoldable pub ensure_static_ip : String → String → kernel.World → Step kernel
  ensure_static_ip ip_addr netmask w =
      if ip_addr == "" then (none, w) else ensure_parsed (net.parse_ip ip_addr) netmask w

  check_listed : Outcome (List String) → net.Ip → net.Mask → Outcome Bool
  check_listed (ok addrs) ip mask = ok (has_desired ip mask addrs)
  check_listed failed ip mask = err "failed to list addresses"

  check_parsed : Option net.Ip → String → kernel.World → Outcome Bool
  check_parsed none netmask w = err "invalid IP address"
  check_parsed (some ip) netmask w = check_listed (kernel.addresses w) ip (net.parse_mask netmask)

  unfoldable pub check_ip_matches : String → String → kernel.World → Outcome Bool
  unfolding check_listed check_parsed
  check_ip_matches ip_addr netmask w =
      if ip_addr == "" then ok true else check_parsed (net.parse_ip ip_addr) netmask w
