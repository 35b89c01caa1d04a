-- ===== src/System/Routes/Matching.antt =====
-- Which routes a route of a snapshot stands for.
use jack.Base.{◌≡◌, ◌↔◌, true, refl, ap, arith, eq_iff}
use jack.Base.Int.{eqz_iff}
use jack.System.Routes.{
  Route, RouteSnapshot, Netlink, text_or, device_of, capture_route, snapshot_routes_match,
}

-- A route matches one of a snapshot exactly if capturing it now gives that one, up to the scope,
-- which is not compared.
pub snapshot_routes_match_lem :
    (netlink : Netlink) (w : netlink.World) (route : Route) (s : RouteSnapshot)
    → snapshot_routes_match netlink w route s ≡ true
      ↔ (record (capture_route netlink w route) { scope = s.scope } ≡ s)
unfolding snapshot_routes_match
snapshot_routes_match_lem netlink w route s = (
  (λ e.
      let d = (eq_iff (text_or "default" route.dst) s.destination).0 (ground (arith, e)) in
      let g = (eq_iff (text_or "" route.gw) s.gateway).0 (ground (arith, e)) in
      let v = (eq_iff (device_of netlink route w) s.device).0 (ground (arith, e)) in
      let m = (eqz_iff route.priority s.metric).0 (ground (arith, e)) in
      let t = (eqz_iff route.table s.table).0 (ground (arith, e)) in rw (d, g, v, m, t) refl),
  (λ e.
      let d = eq_iff (text_or "default" route.dst) s.destination in
      let g = eq_iff (text_or "" route.gw) s.gateway in
      let v = eq_iff (device_of netlink route w) s.device in
      let m = eqz_iff route.priority s.metric in
      let t = eqz_iff route.table s.table in
      let d₁ = d.1 (ap (λ r. r.destination) e) in
      let g₁ = g.1 (ap (λ r. r.gateway) e) in
      let v₁ = v.1 (ap (λ r. r.device) e) in
      let m₁ = m.1 (ap (λ r. r.metric) e) in
      let t₁ = t.1 (ap (λ r. r.table) e) in rw (d₁, g₁, v₁, m₁, t₁) refl),
)
