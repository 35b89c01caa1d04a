-- ===== src/Daemon/Apply.antt =====
-- The apply of daemon/server.go: the committed configuration is put into effect in steps, and what
-- was there before is restored if a step fails.
pub mod Keeps
pub mod Round
pub mod Again
pub mod Rollback
pub mod Grown
pub mod Records
use jack.Base.{
  ℕ, String, ◌==◌, Bool, true, false, not, Option, none, some, List, [], ◌∷◌, ◌++◌, is_some,
  if◌then◌else◌,
}
use jack.Base.Maps.{Map, lookup, entries}
use jack.Base.Outcome.{Outcome, ok, err, panic}
use jack.Base.Int.{pos}
use jack.Types.Network.{Interface, InterfacesConfig, RoutesConfig, JackConfig}
use jack.Validation.{Error}
use jack.Daemon.Config.{Config, plugin, nil_map}
use jack.Daemon.Plugin.{Plugin, ServiceDescriptor}
use jack.Daemon.Host.{Host}
use jack.Daemon.Registry.{
  PluginRegistry, get, list, get_namespace_for_plugin, get_plugin_name_for_namespace,
}
use jack.Daemon.Services.{ServiceRegistry, mark_service_ready}
use jack.Daemon.Order.{order_plugins_by_dependencies}
use jack.Daemon.Interfaces.{order_interfaces}
use jack.Daemon.Observer.{NetworkObserver, mark_change}
use jack.Daemon.State.{
  State, Ref, load, alloc, get_committed, get_committed_interfaces, get_current_jack_config,
  get_last_applied, set_last_applied,
}

-- What a missing key of a map of interfaces reads as.
abbrev pub zero_interface : Interface
zero_interface = record {
  ipv6 = none;
  gateway = "";
  comment = "";
  mac = "";
  type = "";
  device = "";
  device_name = "";
  protocol = "";
  ip_addr = "";
  wg_private_key = "";
  netmask = "";
  bridge_ports = [];
  dns = [];
  wg_peers = [];
  metric = pos 0;
  mtu = pos 0;
  bridge_forward_delay = pos 0;
  vlan_id = pos 0;
  wg_listen_port = pos 0;
  enabled = false;
  bridge_stp = false;
}

abbrev pub or_zero : Option Interface → Interface
or_zero none = zero_interface
or_zero (some i) = i

-- The nil dereference of a plugin that is not registered.
abbrev pub nil_plugin {ℓ} : {A : Type ℓ} → Outcome A
nil_plugin = panic "nil pointer dereference"

module _ (host : Host) (registry : PluginRegistry) where
  pub record Daemon : Type 0 where
    pub state : State
    pub services : ServiceRegistry
    pub observer : Option NetworkObserver
    pub world : host.World

  abbrev pub Result : Type 0
  Result = Outcome (Unit {0}) × Daemon

  abbrev pub and_then : Result → (Daemon → Result) → Result
  and_then (ok done, d) next = next d
  and_then (err e, d) next = (err e, d)
  and_then (panic e, d) next = (panic e, d)

  -- `ConfigsEqual`; nil equals nil only.
  same_text : Outcome String → Outcome String → Bool
  same_text (ok a) (ok b) = a == b
  same_text a b = false

  unfoldable pub configs_equal : Option Config → Option Config → Bool
  unfolding same_text
  configs_equal none none = true
  configs_equal none (some b) = false
  configs_equal (some a) none = false
  configs_equal (some a) (some b) =
      if host.deep_equal a b then true else same_text (host.marshal a) (host.marshal b)

  -- A rollback that fails is logged only.
  unfoldable pub restored : host.Snapshot → List String → Daemon → Daemon
  restored snapshot steps d = record d { world = (host.restore snapshot steps d.world).1 }

  -- What the error of a call means for the rest.
  abbrev failing : Error → (String → Result) → Result → Result
  failing none fail go_on = go_on
  failing (some e) fail go_on = fail e

  -- The loop over the ordered interfaces; the names of the steps are for the rollback.
  unfoldable pub apply_interfaces :
      host.Snapshot → List String → Map Interface → List String → Daemon → Result
  apply_interfaces snapshot steps m [] d = (ok tt, d)
  apply_interfaces snapshot steps m (name ∷ names) d =
      let (e, world) = host.apply_interface name (or_zero (lookup name m)) d.world in
      let d' = record d { world = world } in
      let rest = apply_interfaces snapshot steps m names d' in
      failing e (λ text. (err "interface", restored snapshot steps d')) rest

  namespaces_of : List String → List String
  namespaces_of [] = []
  namespaces_of (name ∷ names) =
      let rest = namespaces_of names in
      elim (get_namespace_for_plugin name registry) [ none ↦ rest | some ns ↦ ns ∷ rest ]

  ordered_by : Option JackConfig → host.World → List String
  unfolding namespaces_of
  ordered_by none world = list registry
  ordered_by (some c) world =
      namespaces_of (order_plugins_by_dependencies (host.dependencies world) (entries c.plugins))

  -- The namespaces in the order of the dependencies of their plugins.
  unfoldable pub ordered_namespaces : Daemon → List String
  unfolding ordered_by
  ordered_namespaces d = ordered_by (get_current_jack_config d.state) d.world

  -- The configuration of a plugin: a reference into the state, or an object from a file or from the
  -- metadata of the plugin. `skip` is the early `continue`.
  pub data Source : Type 0 where
    shared : Ref → Source
    fresh : Config → Source
    skip : Source

  -- A type assertion to a map fails on nil and leaves the variable a nil map.
  unfoldable pub committed_source : Ref → Option Config → Source
  committed_source r (some (plugin f)) = shared r
  committed_source r (some nil_map) = shared r
  committed_source r other = fresh nil_map

  default_source : Option Plugin → Outcome Source
  default_source none = nil_plugin
  default_source (some p) = elim p.metadata.default_config [
    | none ↦ ok skip
    | some f ↦ ok (fresh (plugin f))
  ]

  file_source : Option Plugin → Outcome Config → Outcome Source
  unfolding default_source
  file_source p (ok c) = ok (fresh c)
  file_source p failed = default_source p

  unfoldable pub source_of : Option Plugin → String → Outcome Ref → Daemon → Outcome Source
  unfolding committed_source file_source
  source_of p name (ok r) d = ok (committed_source r (load d.state r))
  source_of p name failed d = file_source p (host.load_plugin_config name d.world)

  abbrev pub put_object : Source → State → Ref × State
  put_object (shared r) s = (r, s)
  put_object (fresh c) s = (some (alloc c s).0, (alloc c s).1)
  put_object skip s = (none, s)

  -- Whether the configuration was applied last; an unknown type was not.
  unchanged : Option Config → State → Outcome Ref → Bool
  unchanged c s (ok last) = configs_equal c (load s last)
  unchanged c s failed = false

  unfoldable pub mark_services : List ServiceDescriptor → Daemon → Result
  mark_services [] d = (ok tt, d)
  mark_services (s ∷ ss) d = elim (mark_service_ready s.name d.services) [
    | ok services ↦ mark_services ss (record d { services = services })
    | err e ↦ mark_services ss d
    | panic e ↦ (panic e, d)
  ]

  -- `oldConfig != nil` tests the interface.
  apply_ignoring : Plugin → Option Config → Daemon → Daemon
  apply_ignoring p c d = record d { world = (host.apply_config p c d.world).1 }

  abbrev reapply_file : Plugin → Outcome Config → Daemon → Daemon
  unfolding apply_ignoring
  reapply_file p (ok c) d = apply_ignoring p (some c) d
  reapply_file p failed d = d

  reapply : Plugin → String → Outcome Ref → Daemon → Daemon
  unfolding apply_ignoring
  reapply p name (ok r) d =
      if is_some r
      then apply_ignoring p (load d.state r) d
      else reapply_file p (host.load_plugin_config name d.world) d
  reapply p name failed d = reapply_file p (host.load_plugin_config name d.world) d

  flush_and_reapply : String → Plugin → Daemon → Daemon
  unfolding reapply
  flush_and_reapply ns p d =
      let flushed = record d { world = (host.flush p d.world).1 } in
      elim (get_plugin_name_for_namespace ns registry) [
        | none ↦ flushed
        | some name ↦ reapply p name (get_last_applied ns d.state) flushed
      ]

  unfoldable pub rollback_loop : List String → Daemon → Result
  unfolding flush_and_reapply
  rollback_loop [] d = (ok tt, d)
  rollback_loop (ns ∷ more) d = elim (get ns registry) [
    | none ↦ (nil_plugin, d)
    | some p ↦ rollback_loop more (flush_and_reapply ns p d)
  ]

  unfoldable pub rollback_plugins : Daemon → Result
  rollback_plugins d = rollback_loop (list registry) d

  unfoldable pub roll_back : host.Snapshot → List String → String → Daemon → Result
  roll_back snapshot steps text d =
      and_then (rollback_plugins d) (λ d'. (err text, restored snapshot steps d'))

  -- The part of the loop behind the choice of the configuration `c`, which `r` refers to in `d`.
  push_config : host.Snapshot → List String → String → Ref → Option Plugin → Daemon → Result
  push_config snapshot steps ns r none d = (nil_plugin, d)
  push_config snapshot steps ns r (some p) d =
      let (e, world) = host.apply_config p (load d.state r) d.world in
      let d' = record d { world = world } in
      failing e (λ text. roll_back snapshot steps "plugin" d')
        (mark_services p.provided_services (record d' { state = set_last_applied ns r d'.state }))

  unfoldable pub with_config :
      host.Snapshot → List String → String → Option Plugin → Source → Daemon → Result
  unfolding unchanged push_config
  with_config snapshot steps ns p skip d = (ok tt, d)
  with_config snapshot steps ns p source d =
      let (r, s) = put_object source d.state in
      if unchanged (load s r) d.state (get_last_applied ns d.state)
      then (ok tt, d)
      else push_config snapshot steps ns r p (record d { state = s })

  with_source :
      host.Snapshot → List String → String → Option Plugin → Outcome Source → Daemon → Result
  unfolding with_config
  with_source snapshot steps ns p (ok source) d = with_config snapshot steps ns p source d
  with_source snapshot steps ns p (err e) d = (err e, d)
  with_source snapshot steps ns p (panic e) d = (panic e, d)

  -- One round of the loop over the plugins.
  unfoldable pub apply_plugin : host.Snapshot → List String → String → Daemon → Result
  unfolding source_of with_source
  apply_plugin snapshot steps ns d = elim (get_plugin_name_for_namespace ns registry) [
    | none ↦ (ok tt, d)
    | some name ↦
        with_source snapshot steps ns (get ns registry)
          (source_of (get ns registry) name (get_committed ns d.state) d) d
  ]

  unfoldable pub apply_plugins : host.Snapshot → List String → List String → Daemon → Result
  apply_plugins snapshot steps [] d = (ok tt, d)
  apply_plugins snapshot steps (ns ∷ more) d =
      and_then (apply_plugin snapshot steps ns d) (λ d'. apply_plugins snapshot steps more d')

  apply_found_routes : host.Snapshot → Outcome RoutesConfig → Daemon → Result
  apply_found_routes snapshot (ok c) d =
      let (e, world) = host.apply_routes c d.world in
      let d' = record d { world = world } in
      failing e (λ text. roll_back snapshot ("all" ∷ []) "routes" d') (ok tt, d')
  apply_found_routes snapshot failed d = (ok tt, d)

  unfoldable pub apply_static_routes : host.Snapshot → Daemon → Result
  unfolding apply_found_routes
  apply_static_routes snapshot d = apply_found_routes snapshot (host.load_routes d.world) d

  abbrev pub marked : ℕ → Daemon → Daemon
  marked now d = record d {
    observer = elim d.observer [ none ↦ none | some o ↦ some (mark_change now o) ];
  }

  -- The steps that `appliedSteps` names when an interface or a plugin fails.
  abbrev pub steps_so_far : List String
  steps_so_far = "ipforward" ∷ "interfaces" ∷ []

  unfoldable pub apply_rest : host.Snapshot → Daemon → Result
  apply_rest snapshot d =
      and_then (apply_plugins snapshot steps_so_far (ordered_namespaces d) d)
        (λ d'. apply_static_routes snapshot d')

  -- `interfaces.Interfaces` of a nil pointer
  abbrev pub apply_from_interfaces : host.Snapshot → Option InterfacesConfig → Daemon → Result
  apply_from_interfaces snapshot none d = (nil_plugin, d)
  apply_from_interfaces snapshot (some c) d =
      let m = entries c.interfaces in
      and_then (apply_interfaces snapshot steps_so_far m (order_interfaces m) d)
        (λ d'. apply_rest snapshot d')

  unfoldable pub execute_apply_with_rollback : host.Snapshot → ℕ → Daemon → Result
  execute_apply_with_rollback snapshot now d =
      let d' = marked now d in
      let (e, world) = host.enable_ip_forwarding d'.world in
      let d'' = record d' { world = world } in
      failing e (λ text. (err "ip forwarding", d''))
        (apply_from_interfaces snapshot (get_committed_interfaces d''.state) d'')
