-- ===== src/Tests/Paths.antt =====
-- daemon/path.go and daemon/navigator.go at small configurations.
use jack.Base.{◌≡◌, refl, ◌∷◌, [], true, false, Bool, none, inl, arith, eq_iff}
use jack.Base.Int.{pos}
use jack.Base.Outcome.{ok}
use jack.Types.Value.{bool, obj, Fields, field, end, find, put}
use jack.Types.Network.{Interface}
use jack.Daemon.Path.Generic.{set_generic_value, get_generic_value}
use jack.Daemon.Path.Generic.Laws.{get-set_generic_value, get-set_generic_value_ne}

abbrev zone : Bool → Fields
zone b = field "wan" (obj (field "masquerade" (bool b) end)) (field "log" (bool false) end)

write_zone : set_generic_value (zone false) ("wan" ∷ "masquerade" ∷ []) (bool true) ≡ ok (zone true)
unfolding set_generic_value find put
write_zone = refl

get-set_generic_value_example :
    get_generic_value (zone true) "wan" ("masquerade" ∷ []) ≡ ok (bool true)
get-set_generic_value_example =
    get-set_generic_value (zone false) (zone true) "wan" ("masquerade" ∷ []) (bool true) write_zone

get-set_generic_value_ne_example :
    get_generic_value (zone true) "log" [] ≡ get_generic_value (zone false) "log" []
get-set_generic_value_ne_example =
    get-set_generic_value_ne (zone false) (zone true) ("wan" ∷ "masquerade" ∷ []) "log" []
      (bool true) (inl (λ e. ground (arith, eq_iff "wan" "log", e))) write_zone

abbrev pub bare_interface : Interface
bare_interface = record {
  ipv6 = none;
  gateway = "";
  comment = "";
  mac = "";
  type = "physical";
  device = "";
  device_name = "eth0";
  protocol = "static";
  ip_addr = "";
  wg_private_key = "";
  netmask = "";
  bridge_ports = [];
  dns = [];
  wg_peers = [];
  metric = pos 0;
  mtu = pos 1500;
  bridge_forward_delay = pos 0;
  vlan_id = pos 0;
  wg_listen_port = pos 0;
  enabled = true;
  bridge_stp = false;
}

abbrev pub readdressed : Interface
readdressed = record bare_interface { ip_addr = "10.0.0.1" }
