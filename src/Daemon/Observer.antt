-- ===== src/Daemon/Observer.antt =====
-- daemon/observer.go: the observer of changes that other programs make to the network. It compares
-- each with the configuration and starts a reconciliation, at most one in each interval. Times are
-- nanoseconds of the clock.
pub mod Drift
pub mod Agreement
pub mod Limit
use jack.Base.{
  ℕ, ◌+◌, ◌-◌, ◌*◌, ◌%◌, ◌<◌, ◌^◌, String, ◌==◌, Bool, true, false, not, ◌&&◌, Option, none, some,
  List, [], ◌∷◌, ltb, eqb, if◌then◌else◌,
}
use jack.Base.Int.{ℤ, pos, ltz}
use jack.Types.Network.{JackConfig, ObserverConfig}
use jack.Daemon.State.{State, get_current_jack_config}
use jack.Daemon.Observer.Drift.{Networks, check_link_drift, check_address_drift, check_route_drift}

pub record NetworkObserver : Type 0 where
  pub last_change : ℕ
  pub last_reconcile : ℕ
  pub auto_reconcile : Bool
  pub reconcile_interval : ℕ

abbrev pub second : ℕ
second = 1000000000

-- `time.Duration(ms) * time.Millisecond` in 64 bits. A product that wraps below zero is 0 here: the
-- time since the last reconciliation is less than neither.
abbrev pub milliseconds : ℤ → ℕ
milliseconds (pos ms) = let d = (ms * 1000000) % 2 ^ 64 in if ltb d (2 ^ 63) then d else 0
milliseconds negative = 0

abbrev configured : Option JackConfig → Option ObserverConfig
configured none = none
configured (some c) = c.observer

abbrev pub created : Option ObserverConfig → ℕ → NetworkObserver
created none now = record {
  last_change = now - 2 * second;
  last_reconcile = now - 60 * second;
  auto_reconcile = false;
  reconcile_interval = 60 * second;
}
created (some c) now =
    let interval =
      if ltz (pos 0) c.reconcile_interval_ms
      then milliseconds c.reconcile_interval_ms
      else 60 * second in
    record {
      last_change = now - 2 * second;
      last_reconcile = now - interval;
      auto_reconcile = c.auto_reconcile;
      reconcile_interval = interval;
    }

unfoldable pub new_network_observer : State → ℕ → NetworkObserver
new_network_observer s now = created (configured (get_current_jack_config s)) now

unfoldable pub mark_change : ℕ → NetworkObserver → NetworkObserver
mark_change now o = record o { last_change = now }

-- `time.Since(o.lastChange) < time.Second`
unfoldable pub is_recent_change : ℕ → NetworkObserver → Bool
is_recent_change now o = ltb now (o.last_change + second)

-- What the handler of an event reads while it runs: the configuration state, the names of links,
-- and the clock, in `isRecentChange`, in the check of the rate limit and when it starts to reconcile.
pub record Reading : Type 0 where
  pub state : State
  pub link_by_index : ℤ → Option String
  pub recent : ℕ
  pub checked : ℕ
  pub started : ℕ

-- Whether `go o.reconcile()` is run.
unfoldable pub maybe_reconcile : Reading → NetworkObserver → Bool × NetworkObserver
maybe_reconcile r o =
    if not o.auto_reconcile
    then (false, o)
    else if ltb r.checked (o.last_reconcile + o.reconcile_interval)
    then (false, o)
    else (true, record o { last_reconcile = r.started })

abbrev pub on_drift : String → Reading → NetworkObserver → Bool × NetworkObserver
on_drift drift r o = if not (drift == "") then maybe_reconcile r o else (false, o)

-- The lowest bit of the flags is `IFF_UP`.
unfoldable pub is_up : ℕ → Bool
is_up flags = eqb (flags % 2) 1

pub record LinkUpdate : Type 0 where
  pub name : String
  pub flags : ℕ
  pub mtu : ℤ

abbrev pub link_drift : LinkUpdate → Reading → String
link_drift u r = check_link_drift u.name (is_up u.flags) u.mtu r.state

unfoldable pub handle_link_update : LinkUpdate → Reading → NetworkObserver → Bool × NetworkObserver
handle_link_update u r o =
    if is_recent_change r.recent o then (false, o) else on_drift (link_drift u r) r o

pub record AddrUpdate : Type 0 where
  pub link_index : ℤ
  pub ip : Option String
  pub new_addr : Bool

abbrev pub name_or_unknown : Option String → String
name_or_unknown none = "unknown"
name_or_unknown (some name) = name

abbrev pub address_drift : String → AddrUpdate → Option String → State → String
address_drift link u none s = ""
address_drift link u (some ip) s =
    if not (link == "unknown") then check_address_drift link ip u.new_addr s else ""

abbrev pub addr_drift : AddrUpdate → Reading → String
addr_drift u r = address_drift (name_or_unknown (r.link_by_index u.link_index)) u u.ip r.state

unfoldable pub handle_addr_update : AddrUpdate → Reading → NetworkObserver → Bool × NetworkObserver
handle_addr_update u r o =
    if is_recent_change r.recent o then (false, o) else on_drift (addr_drift u r) r o

pub record RouteUpdate : Type 0 where
  pub type : ℕ
  pub dst : Option String
  pub gw : Option String
  pub table : ℤ

-- `RTM_NEWROUTE` and `RTM_DELROUTE`
unfoldable pub action_of : ℕ → String
action_of type = if eqb type 24 then "added" else if eqb type 25 then "deleted" else "modified"

abbrev pub route_drift : Networks → RouteUpdate → Reading → String
route_drift network u r = check_route_drift network u.dst u.gw u.table (action_of u.type) r.state

unfoldable pub handle_route_update :
    Networks → RouteUpdate → Reading → NetworkObserver → Bool × NetworkObserver
handle_route_update network u r o =
    if is_recent_change r.recent o then (false, o) else on_drift (route_drift network u r) r o

-- What `Run` receives, and the calls of `MarkChange` between.
pub data Event : Type 0 where
  link : LinkUpdate → Reading → Event
  addr : AddrUpdate → Reading → Event
  route : RouteUpdate → Reading → Event
  change : ℕ → Event

unfoldable pub receive : Networks → Event → NetworkObserver → Bool × NetworkObserver
receive network (link u r) o = handle_link_update u r o
receive network (addr u r) o = handle_addr_update u r o
receive network (route u r) o = handle_route_update network u r o
receive network (change now) o = (false, mark_change now o)

-- The loop, with the time of each reconciliation that it starts.
unfoldable pub run : Networks → List Event → NetworkObserver → List ℕ × NetworkObserver
run network [] o = ([], o)
run network (e ∷ es) o =
    let (reconciles, o') = receive network e o in
    let (times, end) = run network es o' in
    (if reconciles then o'.last_reconcile ∷ times else times, end)
