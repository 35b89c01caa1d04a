-- ===== src/System/Routes.antt =====
-- The routing table in system/snapshot_manager.go: what a snapshot keeps of a route, and the
-- rollback to the routes of a snapshot. The calls of netlink and the parsers of net are behind
-- `Netlink`; addresses and networks are their texts, and a nil one is `none`.
pub mod Matching
pub mod Fixed
use jack.Base.{
  ℕ, String, ◌==◌, Bool, true, false, not, ◌&&◌, ◌||◌, Option, none, some, List, [], ◌∷◌, eqb,
  if◌then◌else◌,
}
use jack.Base.Int.{ℤ, pos, eqz, ltz}
use jack.Base.Outcome.{Outcome, ok, err, panic}
use jack.Validation.{Error}

-- netlink.Route
pub record Route : Type 0 where
  pub dst : Option String
  pub gw : Option String
  pub link_index : ℤ
  pub priority : ℤ
  pub table : ℤ
  pub scope : ℤ
  pub protocol : ℤ

pub record RouteSnapshot : Type 0 where
  pub destination : String
  pub gateway : String
  pub device : String
  pub metric : ℤ
  pub table : ℤ
  pub scope : ℤ

pub record Netlink : Type 1 where
  pub World : Type 0
  -- `RouteList` of all links
  pub route_list : World → Outcome (List Route)
  pub route_del : Route → World → Error × World
  pub route_add : Route → World → Error × World
  -- the name of the link that `LinkByIndex` finds, and the index of the one `LinkByName` finds
  pub name_of : ℤ → World → Option String
  pub index_of : String → World → Option ℤ
  pub parse_cidr : String → Option String
  pub parse_ip : String → Option String
  pub scope_link : ℤ
  -- `netlink.Scope(...)`, to 8 bits
  pub to_scope : ℤ → ℤ

abbrev pub text_or : String → Option String → String
text_or otherwise none = otherwise
text_or otherwise (some text) = text

module _ (netlink : Netlink) where
  unfoldable pub device_of : Route → netlink.World → String
  device_of route w =
      if ltz (pos 0) route.link_index then text_or "" (netlink.name_of route.link_index w) else ""

  abbrev pub capture_route : netlink.World → Route → RouteSnapshot
  capture_route w route = record {
    destination = text_or "default" route.dst;
    gateway = text_or "" route.gw;
    device = device_of route w;
    metric = route.priority;
    table = route.table;
    scope = route.scope;
  }

  unfoldable pub capture_routes : netlink.World → List Route → List RouteSnapshot
  capture_routes w [] = []
  capture_routes w (route ∷ routes) = capture_route w route ∷ capture_routes w routes

  unfoldable pub snapshot_routes_match : netlink.World → Route → RouteSnapshot → Bool
  snapshot_routes_match w route snapshot =
      text_or "default" route.dst == snapshot.destination
      && text_or "" route.gw == snapshot.gateway
      && device_of route w == snapshot.device
      && eqz route.priority snapshot.metric
      && eqz route.table snapshot.table

  unfoldable pub snapshot_route_exists : netlink.World → Route → List RouteSnapshot → Bool
  snapshot_route_exists w route [] = false
  snapshot_route_exists w route (s ∷ ss) =
      snapshot_routes_match w route s || snapshot_route_exists w route ss

  unfoldable pub snapshot_route_in_current : netlink.World → RouteSnapshot → List Route → Bool
  snapshot_route_in_current w s [] = false
  snapshot_route_in_current w s (route ∷ routes) =
      snapshot_routes_match w route s || snapshot_route_in_current w s routes

  -- Routes of the kernel (protocol 2) and of a link are left alone.
  abbrev pub is_foreign : Route → Bool
  is_foreign route = eqz route.protocol (pos 2) || eqz route.scope netlink.scope_link

  unfoldable pub remove_routes : List RouteSnapshot → List Route → netlink.World → netlink.World
  remove_routes snapshots [] w = w
  remove_routes snapshots (route ∷ routes) w = remove_routes snapshots routes (
      if is_foreign route || snapshot_route_exists w route snapshots
      then w
      else (netlink.route_del route w).1)

  abbrev index_or_zero : Option ℤ → ℤ
  index_or_zero none = pos 0
  index_or_zero (some index) = index

  unfoldable pub route_from : RouteSnapshot → Option String → netlink.World → Route
  route_from s network w = record {
    dst = network;
    gw = if s.gateway == "" then none else netlink.parse_ip s.gateway;
    link_index = if s.device == "" then pos 0 else index_or_zero (netlink.index_of s.device w);
    priority = s.metric;
    table = s.table;
    scope = netlink.to_scope s.scope;
    protocol = pos 0;
  }

  add_parsed : RouteSnapshot → Option String → netlink.World → netlink.World
  add_parsed s none w = w
  add_parsed s (some network) w = (netlink.route_add (route_from s (some network) w) w).1

  unfoldable pub add_route : RouteSnapshot → netlink.World → netlink.World
  unfolding add_parsed
  add_route s w =
      if s.destination == "default"
      then (netlink.route_add (route_from s none w) w).1
      else add_parsed s (netlink.parse_cidr s.destination) w

  unfoldable pub add_routes : List Route → List RouteSnapshot → netlink.World → netlink.World
  add_routes current [] w = w
  add_routes current (s ∷ ss) w =
      add_routes current ss (if snapshot_route_in_current w s current then w else add_route s w)

  rollback_from : Outcome (List Route) → List RouteSnapshot → netlink.World → Error × netlink.World
  rollback_from (ok current) snapshots w =
      (none, add_routes current snapshots (remove_routes snapshots current w))
  rollback_from failed snapshots w = (some "failed to list current routes", w)

  unfoldable pub rollback_routes : List RouteSnapshot → netlink.World → Error × netlink.World
  unfolding rollback_from
  rollback_routes snapshots w = rollback_from (netlink.route_list w) snapshots w
