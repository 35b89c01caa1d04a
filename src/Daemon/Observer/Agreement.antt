-- ===== src/Daemon/Observer/Agreement.antt =====
-- When the tests of daemon/observer.go find no drift.
use jack.Base.{
  String, ◌==◌, ◌≡◌, ◌↔◌, ◌⊎◌, Bool, true, false, not, ◌&&◌, ◌||◌, Option, none, some, [], ◌∷◌,
  refl, sym, ◌∙◌, arith, inl, inr, eq_iff, Bool-cases, if◌then◌else◌,
}
use jack.Base.Int.{ℤ, pos, ltz, eqz, eqz_iff}
use jack.Base.Maps.{Map, AllEntries, entries}
use jack.Types.Network.{Interface, InterfacesConfig, Route, RoutesConfig}
use jack.Daemon.State.{State, get_current_interfaces, get_current_routes}
use jack.Daemon.Observer.Drift.{
  Networks, RouteData, find_in, find_interface_by_device, compare_link_state, check_link_drift,
  normal_destination, route_destinations_match, compare_route, routes_drift, or_else,
  check_route_drift, drift_if,
}

-- The link is up if the interface is enabled and down if not, and its MTU is the configured one.
abbrev pub LinkAgrees : Bool → ℤ → Interface → Type 0
LinkAgrees is_up mtu i = (is_up ≡ i.enabled) × (ltz (pos 0) i.mtu ≡ true → mtu ≡ i.mtu)

-- Three tests, each with its message, find nothing exactly if each fails.
silent :
    (a b c : Bool) (x y z : String)
    → x == "" ≡ false
    → y == "" ≡ false
    → z == "" ≡ false
    → (if a then x else if b then y else if c then z else "") == "" ≡ (not a && (not b && not c))
silent true b c x y z hx hy hz = hx
silent false true c x y z hx hy hz = hy
silent false false true x y z hx hy hz = hz
silent false false false x y z hx hy hz = refl

link_agreement :
    (up enabled limited same : Bool)
    → (not (enabled && not up) && (not (not enabled && up) && not (limited && not same))) ≡ true
      ↔ (up ≡ enabled) × (limited ≡ true → same ≡ true)
link_agreement up enabled true same = (λ e. ground arith, λ (e, f). ground (arith, f refl))
link_agreement up enabled false same = (λ e. (ground arith, λ l. cc), λ (e, f). ground arith)

link_case :
    (is_up : Bool) (mtu : ℤ) (i : Interface)
    → compare_link_state i is_up mtu == "" ≡ true ↔ LinkAgrees is_up mtu i
unfolding compare_link_state
link_case is_up mtu i =
    let agree = link_agreement is_up i.enabled (ltz (pos 0) i.mtu) (eqz mtu i.mtu) in
    let quiet =
      silent (i.enabled && not is_up) (not i.enabled && is_up)
        (ltz (pos 0) i.mtu && not (eqz mtu i.mtu)) "Interface is down but should be up"
        "Interface is up but should be down" "Interface has another MTU than it should have" refl
        refl refl in
    (
      λ q.
          let (same, limit) = agree.0 (sym quiet ∙ q) in
          (same, λ l. (eqz_iff mtu i.mtu).0 (limit l)),
      λ (same, limit). quiet ∙ agree.1 (same, λ l. (eqz_iff mtu i.mtu).1 (limit l)),
    )

abbrev pub has_device : String → Interface → Bool
has_device device i = i.device_name == device || i.device == device

-- The first interface with the device, in the order in which the loop meets them, agrees.
abbrev pub FirstAgrees : Bool → ℤ → String → Map Interface → Type 0
FirstAgrees is_up mtu device [] = Unit
FirstAgrees is_up mtu device ((name, i) ∷ m) =
    (has_device device i ≡ true → LinkAgrees is_up mtu i)
    × (has_device device i ≡ false → FirstAgrees is_up mtu device m)

abbrev pub current_entries : State → Map Interface
current_entries s = elim (get_current_interfaces s) [
  | none ↦ []
  | some config ↦ entries config.interfaces
]

first_case :
    (is_up : Bool) (mtu : ℤ) (device : String) (m : Map Interface)
    → drift_if (find_in device m) (λ i. compare_link_state i is_up mtu) == "" ≡ true
      ↔ FirstAgrees is_up mtu device m
unfolding find_in
first_case is_up mtu device [] = (λ e. tt, λ e. refl)
first_case is_up mtu device ((name, i) ∷ m) = elim (Bool-cases (has_device device i)) [
  | inl has ↦ rw has (
    λ e. ((λ h. (link_case is_up mtu i).0 e), λ h. cc),
    λ agrees. (link_case is_up mtu i).1 (agrees.0 refl),
  )
  | inr lacks ↦ rw lacks (
    λ e. ((λ h. cc), λ h. (first_case is_up mtu device m).0 e),
    λ agrees. (first_case is_up mtu device m).1 (agrees.1 refl),
  )
]

-- A link shows no drift exactly if, among the interfaces of the current configuration, none has its
-- device, or the first that has it is enabled exactly if the link is up and, if it configures an
-- MTU, configures that of the link.
pub check_link_drift_lem :
    (link : String) (is_up : Bool) (mtu : ℤ) (s : State)
    → check_link_drift link is_up mtu s == "" ≡ true
      ↔ FirstAgrees is_up mtu link (current_entries s)
unfolding check_link_drift find_interface_by_device
check_link_drift_lem link is_up mtu s = go (get_current_interfaces s)
  where
    go :
        (config : Option InterfacesConfig)
        → drift_if (find_interface_by_device config link) (λ i. compare_link_state i is_up mtu)
              == ""
            ≡ true
          ↔ FirstAgrees is_up mtu link (elim config [ none ↦ [] | some c ↦ entries c.interfaces ])
    go none = (λ e. tt, λ e. refl)
    go (some c) = first_case is_up mtu link (entries c.interfaces)

-- A route to the destination of the configured one, if that is enabled, was not deleted and has its
-- gateway and table, if those are configured.
abbrev pub RouteAgrees : Networks → RouteData → String → String → Route → Type 0
RouteAgrees network actual action name r =
    r.enabled ≡ true
    → route_destinations_match network actual.dst (normal_destination r.destination) ≡ true
    → (action == "deleted" ≡ false)
      × ((r.gateway ≡ "") ⊎ (r.gateway ≡ actual.gw))
      × (ltz (pos 0) r.table ≡ true → actual.table ≡ r.table)

module _ (network : Networks) (actual : RouteData) (action : String) where
  matched :
      (r : Route)
      → route_destinations_match network actual.dst (normal_destination r.destination) ≡ true
      → (compare_route network r actual action == "") ≡ (
          not (action == "deleted")
          && (not (not (r.gateway == "") && not (r.gateway == actual.gw))
              && not (ltz (pos 0) r.table && not (eqz actual.table r.table))))
  unfolding compare_route
  matched r matches = rw matches (
      silent (action == "deleted") (not (r.gateway == "") && not (r.gateway == actual.gw))
        (ltz (pos 0) r.table && not (eqz actual.table r.table)) "Route was deleted externally"
        "Route has another gateway than it should have"
        "Route is in another table than it should be" refl refl refl)

  unmatched-quiet :
      (r : Route)
      → route_destinations_match network actual.dst (normal_destination r.destination) ≡ false
      → compare_route network r actual action == "" ≡ true
  unfolding compare_route
  unmatched-quiet r other = rw other refl

  quiet-RouteAgrees :
      (name : String) (r : Route)
      → compare_route network r actual action == "" ≡ true
      → RouteAgrees network actual action name r
  quiet-RouteAgrees name r quiet enabled matches =
      let all = sym (matched r matches) ∙ quiet in
      (
        ground (arith, all),
        elim (Bool-cases (r.gateway == "")) [
          | inl e ↦ inl ((eq_iff r.gateway "").0 e)
          | inr ne ↦ inr ((eq_iff r.gateway actual.gw).0 (ground (arith, all, ne)))
        ],
        λ limited. (eqz_iff actual.table r.table).0 (ground (arith, all, limited)),
      )

  RouteAgrees-quiet :
      (name : String) (r : Route)
      → RouteAgrees network actual action name r
      → r.enabled ≡ true
      → compare_route network r actual action == "" ≡ true
  RouteAgrees-quiet name r agrees enabled =
      elim (Bool-cases
        (route_destinations_match network actual.dst (normal_destination r.destination))) [
          | inr other ↦ unmatched-quiet r other
          | inl matches ↦ matched r matches ∙ all_hold r (agrees enabled matches)
        ]
    where
      limit :
          (r : Route)
          → (ltz (pos 0) r.table ≡ true → actual.table ≡ r.table)
          → not (ltz (pos 0) r.table && not (eqz actual.table r.table)) ≡ true
      limit r table = elim (Bool-cases (ltz (pos 0) r.table)) [
        | inl limited ↦ rw (limited, (eqz_iff actual.table r.table).1 (table limited)) refl
        | inr free ↦ rw free refl
      ]

      all_hold :
          (r : Route)
          → (action == "deleted" ≡ false)
            × ((r.gateway ≡ "") ⊎ (r.gateway ≡ actual.gw))
            × (ltz (pos 0) r.table ≡ true → actual.table ≡ r.table)
          → (not (action == "deleted")
              && (not (not (r.gateway == "") && not (r.gateway == actual.gw))
                  && not (ltz (pos 0) r.table && not (eqz actual.table r.table))))
            ≡ true
      all_hold r (kept, inl none_wanted, table) =
          rw (kept, (eq_iff r.gateway "").1 none_wanted) (limit r table)
      all_hold r (kept, inr same, table) =
          rw (kept, (eq_iff r.gateway actual.gw).1 same) (ground (arith, limit r table))

  -- A disabled route, or one without drift, is passed over.
  passed :
      (enabled : Bool) (drift rest : String)
      → (if not enabled then rest else if not (drift == "") then drift else rest) == "" ≡ true
        ↔ (enabled ≡ true → drift == "" ≡ true) × (rest == "" ≡ true)
  passed false drift rest = (λ q. (λ on. cc, q), λ a. a.1)
  passed true drift rest = elim (Bool-cases (drift == "")) [
    | inl quiet ↦ rw quiet (λ q. (λ on. refl, q), λ a. a.1)
    | inr drifts ↦
        rw drifts (λ q. absurd (ground (arith, q, drifts)), λ a. absurd (ground (arith, a.0 refl)))
  ]

  routes_drift_lem :
      (m : Map Route)
      → routes_drift network m actual action == "" ≡ true
        ↔ AllEntries (RouteAgrees network actual action) m
  unfolding routes_drift
  routes_drift_lem [] = (λ e. tt, λ e. refl)
  routes_drift_lem ((name, r) ∷ m) =
      let step =
        passed r.enabled (compare_route network r actual action)
          (routes_drift network m actual action) in
      (
        λ q.
            let (quiet, rest) = step.0 q in
            (λ on. quiet-RouteAgrees name r (quiet on) on, (routes_drift_lem m).0 rest),
        λ (agrees, rest). step.1 (RouteAgrees-quiet name r agrees, (routes_drift_lem m).1 rest),
      )

-- What netlink says of a route.
abbrev pub seen : Option String → Option String → ℤ → RouteData
seen dst gw table = record { dst = or_else "default" dst; gw = or_else "" gw; table = table }

abbrev pub AllAgree : Networks → RouteData → String → Option RoutesConfig → Type 0
AllAgree network actual action none = Unit
AllAgree network actual action (some c) =
    AllEntries (RouteAgrees network actual action) (entries c.routes)

-- A route shows no drift exactly if, for each enabled route of the current configuration with the
-- same destination, it was not deleted and has the gateway and the table that are configured, if
-- they are.
pub check_route_drift_lem :
    (network : Networks) (dst gw : Option String) (table : ℤ) (action : String) (s : State)
    → check_route_drift network dst gw table action s == "" ≡ true
      ↔ AllAgree network (seen dst gw table) action (get_current_routes s)
unfolding check_route_drift
check_route_drift_lem network dst gw table action s = go (get_current_routes s)
  where
    go :
        (config : Option RoutesConfig)
        → drift_if config (λ c. routes_drift network (entries c.routes) (seen dst gw table) action)
              == ""
            ≡ true
          ↔ AllAgree network (seen dst gw table) action config
    go none = (λ e. tt, λ e. refl)
    go (some c) = routes_drift_lem network (seen dst gw table) action (entries c.routes)
