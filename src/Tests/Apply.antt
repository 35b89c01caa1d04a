-- ===== src/Tests/Apply.antt =====
-- An apply with one plugin, on a machine that keeps a log of what was done to it.
use jack.Base.{ℕ, ◌≡◌, ◌⊎◌, refl, String, ◌∷◌, [], List, true, false, Bool, some, none}
use jack.Base.Maps.{lookup, insert}
use jack.Base.Lists.{mem}
use jack.Base.Outcome.{ok, err}
use jack.Validation.{Error}
use jack.Daemon.Config.{Config, interfaces, plugin, nil_map}
use jack.Daemon.Plugin.{Plugin}
use jack.Daemon.Host.{Host}
use jack.Daemon.Registry.{
  PluginRegistry, new_plugin_registry, register, get, get_plugin_name_for_namespace, find_value,
}
use jack.Daemon.Services.{new_service_registry}
use jack.Daemon.Snapshots.{load_snapshot}
use jack.Daemon.State.{
  State, load, alloc, load_committed, set_last_applied, get_committed, get_last_applied,
  get_committed_interfaces, entry_or_new,
}
use jack.Daemon.State.Isolation.{IsIsolated, committed, pending}
use jack.Daemon.Apply.{
  Daemon, apply_plugins, apply_plugin, execute_apply_with_rollback, restored, apply_interfaces,
  source_of, committed_source, configs_equal, with_config, mark_services,
}
use jack.Daemon.Apply.Grown.{execute_keeps_configurations}
use jack.Daemon.Apply.Rollback.{IsRestored, failed_apply_restores}
use jack.Daemon.Apply.Again.{apply_plugins_again}
use jack.Daemon.Checkpoints.{Server, handle_apply}
use jack.Daemon.Checkpoints.Latest.{latest_after_apply}
use jack.Daemon.Interfaces.{order_interfaces, group_interfaces, add_interface}
use jack.Tests.Paths.{bare_interface}
use jack.Tests.Snapshots.{disk}
use jack.Tests.State.{loaded, loaded-IsIsolated}
use jack.Tests.Plugins.{plugin_with}

-- Configurations are equal here if they are of the same kind.
abbrev same_kind : Config → Config → Bool
same_kind (plugin f) (plugin g) = true
same_kind (plugin f) other = false
same_kind nil_map nil_map = true
same_kind nil_map other = false
same_kind a (plugin g) = false
same_kind a nil_map = false
same_kind a b = true

same_kind_refl : (c : Config) → same_kind c c ≡ true
same_kind_refl (plugin f) = refl
same_kind_refl nil_map = refl
same_kind_refl (interfaces c) = refl
same_kind_refl (Config.routes c) = refl
same_kind_refl (Config.jack_config c) = refl

abbrev done : String → List String → Error × List String
done what log = (none, what ∷ log)

-- Forwarding fails or not; all else succeeds.
abbrev machine : Error → Host
machine forwarding = record {
  World = List String;
  Snapshot = ℕ;
  capture = λ log. ok ("auto-1", 7);
  renamed = λ n. ("manual-1", n);
  nftables_rules = λ n. "";
  restore_nftables = λ rules. done "nftables";
  restore = λ n steps. done "restore";
  enable_ip_forwarding = λ log. (forwarding, log);
  apply_interface = λ name i log. (some "no such device", log);
  apply_routes = λ c. done "routes";
  apply_config = λ p c. done "apply";
  flush = λ p. done "flush";
  dependencies = λ log name. none;
  load_plugin_config = λ name log. err "no such file";
  load_routes = λ log. err "no such file";
  deep_equal = same_kind;
  marshal = λ c. err "not needed";
  deep_equal_refl = same_kind_refl;
}

abbrev led_driver : Plugin
led_driver =
    let p = plugin_with "" in record p { metadata = record p.metadata { namespace = "led" } }

abbrev registry : PluginRegistry
registry = (register led_driver "leds" new_plugin_registry).1

abbrev daemon : (host : Host) → host.World → State → Daemon host registry
daemon host world s = record {
  state = s;
  services = new_service_registry;
  observer = none;
  world = world;
}

abbrev before : Daemon (machine none) registry
before = daemon (machine none) [] loaded

execute_keeps_configurations_example :
    let s' = (execute_apply_with_rollback (machine none) registry 7 100 before).1.state in
    (load s' (committed "led" s') ≡ load loaded (committed "led" loaded))
    × (load s' (pending "led" s') ≡ load loaded (pending "led" loaded))
    × IsIsolated s'
execute_keeps_configurations_example =
    execute_keeps_configurations (machine none) registry 7 100 before "led" loaded-IsIsolated

-- the plugin has its configuration
abbrev after : Daemon (machine none) registry
after = daemon (machine none) ("apply" ∷ []) (set_last_applied "led" (some 0) loaded)

applies : apply_plugins (machine none) registry 7 [] ("led" ∷ []) before ≡ (ok tt, after)
unfolding apply_plugins apply_plugin source_of committed_source with_config mark_services
    get_committed get_last_applied load_committed alloc insert lookup register get
    get_plugin_name_for_namespace find_value configs_equal entry_or_new
applies = refl

apply_plugins_again_example :
    apply_plugins (machine none) registry 8 [] ("led" ∷ []) after ≡ (ok tt, after)
unfolding load_committed alloc insert lookup
apply_plugins_again_example =
    apply_plugins_again (machine none) registry ("led" ∷ []) 7 8 [] [] before after
      loaded-IsIsolated (refl, tt) applies

abbrev with_lan : State
with_lan =
    let lan =
      interfaces (record { interfaces = some (("lan", bare_interface) ∷ []); version = "1" }) in
    load_committed "interfaces" (some (alloc lan loaded).0) (alloc lan loaded).1

abbrev with_interface : Daemon (machine none) registry
with_interface = daemon (machine none) [] with_lan

abbrev gone_back : Daemon (machine none) registry
gone_back = daemon (machine none) ("restore" ∷ []) with_lan

fails :
    execute_apply_with_rollback (machine none) registry 7 100 with_interface
    ≡ (err "interface", gone_back)
unfolding execute_apply_with_rollback get_committed_interfaces get_committed load_committed alloc
    insert lookup apply_interfaces order_interfaces restored group_interfaces add_interface
fails = refl

failed_apply_restores_example :
    (◌≡◌ {A = String} "interface" "ip forwarding") ⊎ IsRestored (machine none) registry 7 gone_back
failed_apply_restores_example =
    failed_apply_restores (machine none) registry 7 100 with_interface gone_back "interface" fails

abbrev server : Server (machine none) registry disk
server = record {
  daemon = before;
  snapshots = record { snapshots = []; snapshot_list = "auto-0" ∷ []; files = [] };
}

latest_after_apply_example :
    load_snapshot disk "latest" (handle_apply (machine none) registry disk 100 server).1.snapshots
    ≡ ok 7
unfolding mem
latest_after_apply_example =
    latest_after_apply (machine none) registry disk 100 server "auto-1" 7 refl refl (refl, tt) refl
