-- ===== src/Daemon/Order/Sorted.antt =====
-- Where the dependencies have no cycle, the order puts every plugin after those it depends on.
use jack.Base.{
  ℕ, zero, suc, ◌≤◌, ◌<◌, String, ◌≡◌, true, false, ◌||◌, Option, List, [], ◌∷◌, ◌++◌, inl, inr,
  arith, eq_iff, eq_refl, if◌then◌else◌, Bool-cases,
}
use jack.Base.Lists.{mem, length, count_out, count_out-le, count_out_lt}
use jack.Base.Maps.{Map}
use jack.Types.Network.{PluginState}
use jack.Daemon.Order.{
  visit_all, visit, visit_enabled, enabled_plugins, dependencies, order_plugins_by_dependencies,
}
use jack.Daemon.Order.Complete.{Extends, visit_all-Extends, visit-Extends, mem-visit}

module _ (deps : String → List String) (enabled : List String) where
  -- Each name of the list has its enabled dependencies in front of it, or in `before`.
  abbrev pub Ordered : List String → List String → Type 0
  Ordered before [] = Unit
  Ordered before (x ∷ xs) =
      ((d : String) → mem d (deps x) ≡ true → mem d enabled ≡ true → mem d before ≡ true)
      × Ordered (x ∷ before) xs

  Ordered-concat :
      (before xs : List String) (x : String)
      → Ordered before xs
      → ((d : String)
          → mem d (deps x) ≡ true
          → mem d enabled ≡ true
          → (mem d before || mem d xs) ≡ true)
      → Ordered before (xs ++ x ∷ [])
  unfolding mem
  Ordered-concat before [] x o h = (λ d k on. ground (arith, h d k on), tt)
  Ordered-concat before (y ∷ ys) x o h =
      (o.0, Ordered-concat (y ∷ before) ys x o.1 (λ d k on. ground (arith, h d k on)))

  Ordered-split :
      (before pre : List String) (x : String) (post : List String) (d : String)
      → Ordered before (pre ++ x ∷ post)
      → mem d (deps x) ≡ true
      → mem d enabled ≡ true
      → (mem d before || mem d pre) ≡ true
  unfolding mem
  Ordered-split before [] x post d o k on = ground (arith, o.0 d k on)
  Ordered-split before (y ∷ ys) x post d o k on =
      ground (arith, Ordered-split (y ∷ before) ys x post d o.1 k on)

  -- the loop over dependencies `ds`, if a visit of each keeps the list ordered and adds it
  module _ (temp : List String) (v : String → List String → List String)
      (extends : (d : String) (r : List String)
        → mem d enabled ≡ true
        → Extends deps enabled temp r (v d r)) where
    visit_all-Ordered :
        (ds s : List String)
        → ((d : String) (r : List String)
            → mem d ds ≡ true
            → mem d enabled ≡ true
            → Ordered [] r
            → Ordered [] (v d r))
        → Ordered [] s
        → Ordered [] (visit_all deps enabled v ds s)
    unfolding visit_all mem
    visit_all-Ordered [] s h o = o
    visit_all-Ordered (d ∷ ds) s h o =
        let later =
          λ (x : String) (r : List String) (m : mem x ds ≡ true). h x r (ground (arith, m)) in
        elim (Bool-cases (mem d enabled)) [
          | inl on ↦ rw on (visit_all-Ordered ds (v d s) later (h d s (rw eq_refl) on o))
          | inr off ↦ rw off (visit_all-Ordered ds s later o)
        ]

    mem-visit_all :
        (ds s : List String) (x : String)
        → ((d : String) (r : List String)
            → mem d ds ≡ true
            → mem d enabled ≡ true
            → mem d (v d r) ≡ true)
        → mem x ds ≡ true
        → mem x enabled ≡ true
        → mem x (visit_all deps enabled v ds s) ≡ true
    unfolding visit_all mem
    mem-visit_all [] s x h m on = cc
    mem-visit_all (d ∷ ds) s x h m on =
        let later =
          λ (y : String) (r : List String) (k : mem y ds ≡ true). h y r (ground (arith, k)) in
        elim (Bool-cases (mem x ds)) [
          | inl more ↦ mem-visit_all ds _ x later more on
          | inr last ↦
              let same : d ≡ x = (eq_iff d x).0 (ground (arith, m, last)) in
              let there : mem d enabled ≡ true = (rw same on) in
              (visit_all-Extends deps enabled temp v ds (if mem d enabled then v d s else s)
                  extends).grows
                x (rw there (rw (← same) (h d s (rw eq_refl) there)))
        ]

  module _ (rank : String → ℕ)
      (acyclic : (name d : String)
        → mem name enabled ≡ true
        → mem d (deps name) ≡ true
        → mem d enabled ≡ true
        → rank d < rank name) where
    -- the visits under way are of names of higher rank
    abbrev Above : String → List String → Type 0
    Above name temp = (t : String) → mem t temp ≡ true → rank name < rank t

    Above-idle : (name : String) (temp : List String) → Above name temp → mem name temp ≡ false
    Above-idle name temp above = elim (Bool-cases (mem name temp)) [
      | inl busy ↦ absurd (omega (arith, above name busy))
      | inr idle ↦ idle
    ]

    -- the enabled dependencies of a name have a lower rank than all that is under way
    below :
        (name d t : String) (temp : List String)
        → rank d < rank name
        → Above name temp
        → mem t (name ∷ temp) ≡ true
        → rank d < rank t
    unfolding mem
    below name d t temp lt above m = ground (arith, eq_iff name t, above t)

    pub visit-Ordered :
        (fuel : ℕ) (temp : List String) (name : String) (s : List String)
        → mem name enabled ≡ true
        → Above name temp
        → count_out temp enabled ≤ fuel
        → Ordered [] s
        → Ordered [] (visit deps enabled fuel temp name s)
    unfolding visit mem
    visit-Ordered zero temp name s on above enough o = o
    visit-Ordered (suc fuel) temp name s on above enough o =
        let idle = Above-idle name temp above in
        let inner = name ∷ temp in
        let enough' : count_out inner enabled ≤ fuel =
          omega (arith, count_out_lt name temp enabled on idle) in
        let above' =
          λ (d : String) (k : mem d (deps name) ≡ true) (on' : mem d enabled ≡ true) (t : String)
              (m : mem t inner ≡ true).
            below name d t temp (acyclic name d on k on') above m in
        let extends = λ (d : String) (r : List String) (on' : mem d enabled ≡ true).
          visit-Extends deps enabled fuel inner d r on' in
        let after = visit_all deps enabled (visit deps enabled fuel inner) (deps name) s in
        let sorted : Ordered [] after =
          visit_all-Ordered inner (visit deps enabled fuel inner) extends (deps name) s
            (λ d r k on' o'. visit-Ordered fuel inner d r on' (above' d k on') enough' o') o in
        let there = λ (d : String) (k : mem d (deps name) ≡ true) (on' : mem d enabled ≡ true).
          mem-visit_all inner (visit deps enabled fuel inner) extends (deps name) s d
            (λ e r k' on''.
              mem-visit deps enabled fuel inner e r on'' (Above-idle e inner (above' e k' on''))
                enough')
            k on' in
        elim (Bool-cases (mem name s)) [
          | inl old ↦ rw (idle, old) o
          | inr new ↦ rw (idle, new) (Ordered-concat [] after name sorted there)
        ]

    pub visit_enabled-Ordered :
        (fuel : ℕ) (names s : List String)
        → ((x : String) → mem x names ≡ true → mem x enabled ≡ true)
        → count_out [] enabled ≤ fuel
        → Ordered [] s
        → Ordered [] (visit_enabled deps enabled fuel names s)
    unfolding visit_enabled mem
    visit_enabled-Ordered fuel [] s h enough o = o
    visit_enabled-Ordered fuel (n ∷ ns) s h enough o =
        let later = λ (y : String) (k : mem y ns ≡ true). h y (ground (arith, k)) in
        elim (Bool-cases (mem n s)) [
          | inl old ↦ rw old (visit_enabled-Ordered fuel ns s later enough o)
          | inr new ↦ rw new (
              visit_enabled-Ordered fuel ns (visit deps enabled fuel [] n s) later enough
                (visit-Ordered fuel [] n s (h n (rw eq_refl)) (λ t m. cc) enough o))
        ]

-- Where the dependencies among the enabled plugins have no cycle, as a rank that falls along them
-- shows, every enabled dependency of a plugin stands in front of it in the order.
pub order_sorted :
    (load : String → Option (List String)) (plugins : Map PluginState) (rank : String → ℕ)
    (pre post : List String) (name dep : String)
    → ((x d : String)
        → mem x (enabled_plugins plugins) ≡ true
        → mem d (dependencies load x) ≡ true
        → mem d (enabled_plugins plugins) ≡ true
        → rank d < rank x)
    → order_plugins_by_dependencies load plugins ≡ pre ++ name ∷ post
    → mem dep (dependencies load name) ≡ true
    → mem dep (enabled_plugins plugins) ≡ true
    → mem dep pre ≡ true
unfolding order_plugins_by_dependencies
order_sorted load plugins rank pre post name dep acyclic split needs on =
    let enabled = enabled_plugins plugins in
    let deps = dependencies load in
    let all =
      visit_enabled-Ordered deps enabled rank acyclic (length enabled) enabled [] (λ x m. m)
        (count_out-le [] enabled) tt in
    unfold mem in Ordered-split deps enabled [] pre name post dep (rw split at all) needs on
