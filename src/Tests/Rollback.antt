-- ===== src/Tests/Rollback.antt =====
-- A routing table with a default route, a route to a network and a route of the kernel.
use jack.Base.{String, ◌≡◌, if◌then◌else◌, Option, none, some, List, [], ◌∷◌, refl}
use jack.Base.Int.{ℤ, pos, eqz}
use jack.Base.Outcome.{ok}
use jack.System.Routes.{Route, Netlink, capture_routes, rollback_routes}
use jack.System.Routes.Fixed.{rollback_routes-capture}

abbrev link_name : ℤ → Option String
link_name index = if eqz index (pos 2) then some "eth0" else none

abbrev netlink : Netlink
netlink = record {
  World = List Route;
  route_list = λ w. ok w;
  route_del = λ r w. (some "operation not permitted", w);
  route_add = λ r w. (none, r ∷ w);
  name_of = λ index w. link_name index;
  index_of = λ name w. none;
  parse_cidr = λ text. some text;
  parse_ip = λ text. some text;
  scope_link = pos 253;
  to_scope = λ scope. scope;
}

abbrev routes : List Route
routes =
    record {
      dst = none;
      gw = some "192.0.2.1";
      link_index = pos 2;
      priority = pos 100;
      table = pos 254;
      scope = pos 0;
      protocol = pos 4;
    }
    ∷ record {
      dst = some "10.0.0.0/8";
      gw = none;
      link_index = pos 7;
      priority = pos 0;
      table = pos 254;
      scope = pos 253;
      protocol = pos 2;
    }
    ∷ []

rollback_routes-capture_example :
    rollback_routes netlink (capture_routes netlink routes routes) routes ≡ (none, routes)
rollback_routes-capture_example = rollback_routes-capture netlink routes routes refl
