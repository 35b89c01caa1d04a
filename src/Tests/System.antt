-- ===== src/Tests/System.antt =====
-- A link with addresses or ports, in a kernel that keeps them as a list.
use jack.Base.{
  String, ◌==◌, ◌≡◌, true, not, ◌&&◌, none, some, List, [], ◌∷◌, refl, arith, eq_iff, if◌then◌else◌,
}
use jack.Base.Lists.{mem}
use jack.Base.Outcome.{ok}
use jack.System.Members.{
  Kernel, update_bridge_ports, update_from, remove_ports, add_ports, remove_port_from_bridge,
  add_port_to_bridge,
}
use jack.System.Addresses.{Addressing}
use jack.System.Addresses.Static
use jack.System.Members.Ports.{IsHonest, update_bridge_ports_exact}

abbrev without : String → List String → List String
without a [] = []
without a (b ∷ bs) = let rest = without a bs in if a == b then rest else b ∷ rest

mem-without : (x a : String) (bs : List String) → mem x (without a bs) ≡ (not (a == x) && mem x bs)
unfolding mem
mem-without x a [] = ground arith
mem-without x a (b ∷ bs) = ground (arith, mem-without x a bs, eq_iff a b, eq_iff b x, eq_iff a x)

abbrev kernel : Kernel
kernel = record {
  World = List String;
  addresses = λ w. ok w;
  addr_del = λ a w. (none, without a w);
  addr_add = λ a w. (none, a ∷ w);
  parses = λ a. true;
  ports = λ w. ok w;
  link_exists = λ p w. true;
  set_no_master = λ p w. (none, without p w);
  set_master = λ p w. (none, p ∷ w);
  set_up = λ p w. (none, w);
}

abbrev snapshot : List String
snapshot = "10.0.0.1/24" ∷ "10.0.0.2/24" ∷ []

kernel-IsHonest : IsHonest kernel
unfolding mem
kernel-IsHonest = record {
  present = λ w. w;
  listed = λ w. refl;
  freed = λ x p w e. mem-without x p w;
  taken = λ x p w e. refl;
  raised = λ x p w. refl;
}

update_succeeds :
    (update_bridge_ports kernel ("lan1" ∷ "lan2" ∷ []) ("lan2" ∷ "lan3" ∷ [])).0 ≡ none
unfolding update_bridge_ports update_from remove_ports add_ports remove_port_from_bridge
    add_port_to_bridge mem
update_succeeds = refl

update_bridge_ports_exact_example :
    mem "lan3" (
      kernel-IsHonest.present
        (update_bridge_ports kernel ("lan1" ∷ "lan2" ∷ []) ("lan2" ∷ "lan3" ∷ [])).1)
    ≡ mem "lan3" ("lan1" ∷ "lan2" ∷ [])
update_bridge_ports_exact_example =
    update_bridge_ports_exact kernel kernel-IsHonest ("lan1" ∷ "lan2" ∷ []) ("lan2" ∷ "lan3" ∷ [])
      "lan3" update_succeeds

abbrev net : Addressing
net = record {
  Ip = String;
  Mask = String;
  parse_ip = λ text. some text;
  parse_mask = λ text. text;
  mask_text = λ mask. mask;
  ip_of = λ a. if a == "10.0.0.1/24" then "10.0.0.1" else a;
  mask_of = λ a. "255.255.255.0";
  address = λ ip mask. if ip == "10.0.0.1" then "10.0.0.1/24" else ip;
  ip_equal = λ a b. a == b;
}
