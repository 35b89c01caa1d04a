-- ===== src/Tests/Observer.antt =====
-- daemon/observer.go at a configuration with one interface and one route.
use jack.Base.{◌≡◌, ◌==◌, ◌↔◌, ◌*◌, refl, arith, ℕ, true, none, some, ◌∷◌, []}
use jack.Base.Int.{pos}
use jack.Base.Maps.{insert, lookup}
use jack.Daemon.Config.{Config, interfaces, routes}
use jack.Daemon.Path.{new_route}
use jack.Daemon.State.{
  State, new_state, alloc, load_committed, get_current, get_current_interfaces, get_current_routes,
}
use jack.Daemon.Observer.{NetworkObserver, Event, link, change, run, receive, second, is_up}
use jack.Daemon.Observer.Drift.{
  Networks, check_link_drift, check_route_drift, find_interface_by_device, compare_link_state,
}
use jack.Daemon.Observer.Agreement.{
  FirstAgrees, current_entries, check_link_drift_lem, AllAgree, seen, check_route_drift_lem,
}
use jack.Daemon.Observer.Limit.{Spaced, run-Spaced, late_drift_reconciles}
use jack.Tests.Paths.{bare_interface}

abbrev lan : Config
lan = interfaces (record {
  interfaces = some (("lan", record bare_interface { device = "eth0"; enabled = true }) ∷ []);
  version = "1";
})

abbrev wan : Config
wan = routes (record {
  routes = some (("wan", record new_route { destination = "default"; enabled = true }) ∷ []);
  version = "1";
})

abbrev configured : State
configured =
    let (a, s) = alloc lan new_state in
    let (b, t) = alloc wan (load_committed "interfaces" (some a) s) in
    load_committed "routes" (some b) t

-- No text is a network.
abbrev network : Networks
network text = none

check_link_drift_lem_example :
    check_link_drift "eth0" true (pos 1500) configured == "" ≡ true
    ↔ FirstAgrees true (pos 1500) "eth0" (current_entries configured)
check_link_drift_lem_example = check_link_drift_lem "eth0" true (pos 1500) configured

check_route_drift_lem_example :
    check_route_drift network none (some "10.0.0.1") (pos 254) "deleted" configured == "" ≡ true
    ↔ AllAgree network
        (seen none (some "10.0.0.1") (pos 254))
        "deleted"
        (get_current_routes configured)
check_route_drift_lem_example =
    check_route_drift_lem network none (some "10.0.0.1") (pos 254) "deleted" configured

-- The link goes down; the clock reads `now`.
abbrev down : ℕ → Event
down now =
    link (record { name = "eth0"; flags = 0; mtu = pos 1500 })
      (record {
        state = configured;
        link_by_index = λ i. some "eth0";
        recent = now;
        checked = now;
        started = now;
      })

abbrev observer : NetworkObserver
observer = record {
  last_change = 0;
  last_reconcile = 0;
  auto_reconcile = true;
  reconcile_interval = 60 * second;
}

run-Spaced_example :
    Spaced
      (60 * second)
      0
      (run network
        (down (70 * second) ∷ change (71 * second) ∷ down (140 * second) ∷ [])
        observer).0
run-Spaced_example =
    run-Spaced network (down (70 * second) ∷ change (71 * second) ∷ down (140 * second) ∷ [])
      observer (omega arith, (tt, (omega arith, tt)))

late_drift_reconciles_example :
    (receive network
      (down (140 * second))
      (run network (down (70 * second) ∷ change (71 * second) ∷ []) observer).1).0
    ≡ true
unfolding check_link_drift find_interface_by_device get_current_interfaces get_current
    load_committed insert alloc compare_link_state lookup is_up
late_drift_reconciles_example =
    late_drift_reconciles network (down (70 * second) ∷ change (71 * second) ∷ [])
      (down (140 * second)) observer (75 * second) (omega arith, (tt, tt))
      (omega arith, (omega arith, tt)) (omega arith, omega arith) refl (omega arith, omega arith)
      refl
