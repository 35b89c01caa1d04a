-- ===== src/System/Members.antt =====
-- system/snapshot_manager.go and system/network_manager.go where they bring the addresses of a link
-- or the ports of a bridge to what is wanted: what is too much is removed, what is missing is added.
-- The calls of netlink, for one link, are behind `Kernel`.
pub mod Exact
pub mod Ports
use jack.Base.{
  String, ◌==◌, Bool, true, false, not, Option, none, some, List, [], ◌∷◌, if◌then◌else◌,
}
use jack.Base.Lists.{mem}
use jack.Base.Outcome.{Outcome, ok, err, panic}
use jack.Validation.{Error}

pub record Kernel : Type 1 where
  pub World : Type 0
  -- `AddrList`, as texts
  pub addresses : World → Outcome (List String)
  pub addr_del : String → World → Error × World
  pub addr_add : String → World → Error × World
  -- `netlink.ParseAddr`
  pub parses : String → Bool
  -- `getBridgePorts`
  pub ports : World → Outcome (List String)
  -- `LinkByName`
  pub link_exists : String → World → Bool
  pub set_no_master : String → World → Error × World
  pub set_master : String → World → Error × World
  pub set_up : String → World → Error × World

module _ (kernel : Kernel) where
  -- The loops, over what was there first; an error of a call is logged, and the next one is made.
  unfoldable pub remove_extra :
      (String → kernel.World → kernel.World)
      → List String
      → List String
      → kernel.World
      → kernel.World
  remove_extra remove wanted [] w = w
  remove_extra remove wanted (x ∷ xs) w =
      remove_extra remove wanted xs (if mem x wanted then w else remove x w)

  unfoldable pub add_missing :
      (String → kernel.World → kernel.World)
      → List String
      → List String
      → kernel.World
      → kernel.World
  add_missing add current [] w = w
  add_missing add current (x ∷ xs) w =
      add_missing add current xs (if mem x current then w else add x w)

  abbrev pub del_address : String → kernel.World → kernel.World
  del_address a w = (kernel.addr_del a w).1

  abbrev pub add_address : String → kernel.World → kernel.World
  add_address a w = if kernel.parses a then (kernel.addr_add a w).1 else w

  addresses_from : Outcome (List String) → List String → kernel.World → Error × kernel.World
  addresses_from (ok current) wanted w =
      (none, add_missing add_address current wanted (remove_extra del_address wanted current w))
  addresses_from failed wanted w = (some "failed to list current addresses", w)

  unfoldable pub restore_ip_addresses : List String → kernel.World → Error × kernel.World
  unfolding addresses_from
  restore_ip_addresses wanted w = addresses_from (kernel.addresses w) wanted w

  abbrev pub drop_port : String → kernel.World → kernel.World
  drop_port p w = if kernel.link_exists p w then (kernel.set_no_master p w).1 else w

  abbrev pub take_port : String → kernel.World → kernel.World
  take_port p w = if kernel.link_exists p w then (kernel.set_master p w).1 else w

  ports_from : Outcome (List String) → List String → kernel.World → Error × kernel.World
  ports_from (ok current) wanted w =
      (none, add_missing take_port current wanted (remove_extra drop_port wanted current w))
  ports_from failed wanted w = (some "failed to get current bridge ports", w)

  unfoldable pub restore_bridge_ports : List String → kernel.World → Error × kernel.World
  unfolding ports_from
  restore_bridge_ports wanted w = ports_from (kernel.ports w) wanted w

  abbrev pub Step : Type 0
  Step = Error × kernel.World

  -- `if err := ...; err != nil { return err }`
  abbrev pub and_then : Step → (kernel.World → Step) → Step
  and_then (none, w) next = next w
  and_then (some e, w) next = (some e, w)

  abbrev pub port_found : String → kernel.World → Step
  port_found p w = (if kernel.link_exists p w then none else some "failed to find port", w)

  unfoldable pub add_port_to_bridge : String → kernel.World → Step
  add_port_to_bridge p w =
      and_then (port_found p w) (λ w₁. and_then (kernel.set_up p w₁) (λ w₂. kernel.set_master p w₂))

  unfoldable pub remove_port_from_bridge : String → kernel.World → Step
  remove_port_from_bridge p w = and_then (port_found p w) (λ w₁. kernel.set_no_master p w₁)

  -- These loops stop at the first error.
  unfoldable pub remove_ports : List String → List String → kernel.World → Step
  remove_ports wanted [] w = (none, w)
  remove_ports wanted (p ∷ ps) w =
      and_then (if mem p wanted then (none, w) else remove_port_from_bridge p w)
        (λ w'. remove_ports wanted ps w')

  unfoldable pub add_ports : List String → List String → kernel.World → Step
  add_ports current [] w = (none, w)
  add_ports current (p ∷ ps) w =
      and_then (if mem p current then (none, w) else add_port_to_bridge p w)
        (λ w'. add_ports current ps w')

  unfoldable pub update_from : Outcome (List String) → List String → kernel.World → Step
  update_from (ok current) wanted w =
      and_then (remove_ports wanted current w) (λ w'. add_ports current wanted w')
  update_from failed wanted w = (some "failed to get current bridge ports", w)

  unfoldable pub update_bridge_ports : List String → kernel.World → Step
  unfolding update_from
  update_bridge_ports wanted w = update_from (kernel.ports w) wanted w
