-- ===== src/System/Routes/Fixed.antt =====
-- A rollback to what there is.
use mathlib.Core.List.{Memᴰ}
use jack.Base.{◌≡◌, true, none, List, [], ◌∷◌, refl, arith}
use jack.Base.Outcome.{ok}
use jack.System.Routes.{
  Route, RouteSnapshot, Netlink, capture_route, capture_routes, snapshot_routes_match,
  snapshot_route_exists, snapshot_route_in_current, remove_routes, add_routes, rollback_from,
  rollback_routes,
}
use jack.System.Routes.Matching.{snapshot_routes_match_lem}

module _ (netlink : Netlink) (w : netlink.World) where
  match-capture :
      (route : Route) → snapshot_routes_match netlink w route (capture_route netlink w route) ≡ true
  match-capture route =
      (snapshot_routes_match_lem netlink w route (capture_route netlink w route)).1 refl

  exists-capture :
      (route : Route) (routes : List Route)
      → Memᴰ route routes
      → snapshot_route_exists netlink w route (capture_routes netlink w routes) ≡ true
  unfolding snapshot_route_exists capture_routes
  exists-capture route [] m = elim m [ ]
  exists-capture route (r ∷ rs) (Memᴰ.head e) = rw e (rw (match-capture r) refl)
  exists-capture route (r ∷ rs) (Memᴰ.tail m) = ground (arith, exists-capture route rs m)

  in_current-capture :
      (route : Route) (routes : List Route)
      → Memᴰ route routes
      → snapshot_route_in_current netlink w (capture_route netlink w route) routes ≡ true
  unfolding snapshot_route_in_current
  in_current-capture route [] m = elim m [ ]
  in_current-capture route (r ∷ rs) (Memᴰ.head e) = rw e (rw (match-capture r) refl)
  in_current-capture route (r ∷ rs) (Memᴰ.tail m) = ground (arith, in_current-capture route rs m)

  remove_routes-kept :
      (snapshots : List RouteSnapshot) (routes : List Route)
      → ((r : Route) → Memᴰ r routes → snapshot_route_exists netlink w r snapshots ≡ true)
      → remove_routes netlink snapshots routes w ≡ w
  unfolding remove_routes
  remove_routes-kept snapshots [] kept = refl
  remove_routes-kept snapshots (r ∷ rs) kept =
      rw (kept r (Memᴰ.head refl))
        (ground (arith, remove_routes-kept snapshots rs (λ q m. kept q (Memᴰ.tail m))))

  add_routes-there :
      (current routes : List Route)
      → ((r : Route)
          → Memᴰ r routes
          → snapshot_route_in_current netlink w (capture_route netlink w r) current ≡ true)
      → add_routes netlink current (capture_routes netlink w routes) w ≡ w
  unfolding add_routes capture_routes
  add_routes-there current [] there = refl
  add_routes-there current (r ∷ rs) there =
      rw (add_routes, there r (Memᴰ.head refl))
        (add_routes-there current rs (λ q m. there q (Memᴰ.tail m)))

-- A rollback to the routes that were captured, while they are still the routes that netlink lists,
-- removes none and adds none, and reports no error.
pub rollback_routes-capture :
    (netlink : Netlink) (w : netlink.World) (routes : List Route)
    → netlink.route_list w ≡ ok routes
    → rollback_routes netlink (capture_routes netlink w routes) w ≡ (none, w)
unfolding rollback_routes rollback_from
rollback_routes-capture netlink w routes e =
    let snapshots = capture_routes netlink w routes in
    rw
      (
        e,
        remove_routes-kept netlink w snapshots routes (λ r m. exists-capture netlink w r routes m),
        add_routes-there netlink w routes routes (λ r m. in_current-capture netlink w r routes m),
      )
      refl
