-- ===== src/Daemon/Order/Complete.antt =====
-- The order holds every enabled plugin exactly once.
use jack.Base.{
  ℕ, zero, suc, ◌≤◌, String, ◌≡◌, refl, ◌∙◌, Bool, true, false, Option, none, some, List, [], ◌∷◌,
  ◌++◌, inl, inr, arith, eq_iff, eq_refl, if◌then◌else◌, Bool-cases,
}
use jack.Base.Lists.{
  mem, mem-append, length, Unique, Unique-concat, count_out, count_out-le, count_out_lt,
}
use jack.Base.Maps.{Map, Distinct, has, lookup}
use jack.Types.Network.{PluginState}
use jack.Daemon.Order.{
  visit_all, visit, visit_enabled, enabled_plugins, dependencies, order_plugins_by_dependencies,
}

module _ (deps : String → List String) (enabled : List String) where
  -- What a visit may do to the list, while the visits of `temp` are under way.
  pub record Extends (temp s r : List String) : Type 0 where
    pub grows : (x : String) → mem x s ≡ true → mem x r ≡ true
    pub within : (x : String) → mem x r ≡ true → mem x s ≡ false → mem x enabled ≡ true
    pub unique : Unique s → Unique r
    pub held : (x : String) → mem x temp ≡ true → mem x r ≡ mem x s

  Extends-refl : (temp s : List String) → Extends temp s s
  Extends-refl temp s = record {
    grows = λ x h. h;
    within = λ x h k. cc;
    unique = λ u. u;
    held = λ x h. refl;
  }

  Extends-trans :
      (temp s r t : List String) → Extends temp s r → Extends temp r t → Extends temp s t
  Extends-trans temp s r t e f = record {
    grows = λ x h. f.grows x (e.grows x h);
    within = λ x h k. elim (Bool-cases (mem x r)) [
      | inl old ↦ e.within x old k
      | inr new ↦ f.within x h new
    ];
    unique = λ u. f.unique (e.unique u);
    held = λ x h. f.held x h ∙ e.held x h;
  }

  pub visit_all-Extends :
      (temp : List String) (v : String → List String → List String) (ds s : List String)
      → ((d : String) (r : List String) → mem d enabled ≡ true → Extends temp r (v d r))
      → Extends temp s (visit_all deps enabled v ds s)
  unfolding visit_all
  visit_all-Extends temp v [] s h = Extends-refl temp s
  visit_all-Extends temp v (d ∷ ds) s h = elim (Bool-cases (mem d enabled)) [
    | inl on ↦
        rw on (Extends-trans temp s (v d s) _ (h d s on) (visit_all-Extends temp v ds (v d s) h))
    | inr off ↦ rw off (visit_all-Extends temp v ds s h)
  ]

  -- appending a name that is enabled and not there yet
  Extends-concat :
      (temp : List String) (name : String) (s r : List String)
      → mem name enabled ≡ true
      → mem name temp ≡ false
      → mem name s ≡ false
      → Extends (name ∷ temp) s r
      → Extends temp s (r ++ name ∷ [])
  unfolding mem
  Extends-concat temp name s r on out new e = record {
    grows = λ x h. ground (arith, mem-append x r (name ∷ []), e.grows x h);
    within = λ x h k. ground (arith, mem-append x r (name ∷ []), e.within x, eq_iff name x);
    unique = λ u. Unique-concat r name (e.unique u) (ground (arith, e.held name, eq_refl name));
    held = λ x h. ground (arith, mem-append x r (name ∷ []), e.held x, eq_iff name x);
  }

  pub visit-Extends :
      (fuel : ℕ) (temp : List String) (name : String) (s : List String)
      → mem name enabled ≡ true
      → Extends temp s (visit deps enabled fuel temp name s)
  unfolding visit
  visit-Extends zero temp name s on = Extends-refl temp s
  visit-Extends (suc fuel) temp name s on =
      let below =
        visit_all-Extends (name ∷ temp) (visit deps enabled fuel (name ∷ temp)) (deps name) s
          (λ d r on'. visit-Extends fuel (name ∷ temp) d r on') in
      elim (Bool-cases (mem name temp)) [
        | inl busy ↦ rw busy (Extends-refl temp s)
        | inr idle ↦ elim (Bool-cases (mem name s)) [
          | inl old ↦ rw (idle, old) (Extends-refl temp s)
          | inr new ↦ rw (idle, new) (Extends-concat temp name s _ on idle new below)
        ]
      ]

  -- With fuel for the enabled plugins that are not under way, a visited plugin is in the list.
  pub mem-visit :
      (fuel : ℕ) (temp : List String) (name : String) (s : List String)
      → mem name enabled ≡ true
      → mem name temp ≡ false
      → count_out temp enabled ≤ fuel
      → mem name (visit deps enabled fuel temp name s) ≡ true
  unfolding visit mem
  mem-visit zero temp name s on idle enough =
      absurd (omega (arith, count_out_lt name temp enabled on idle))
  mem-visit (suc fuel) temp name s on idle enough = elim (Bool-cases (mem name s)) [
    | inl old ↦ rw (idle, old) old
    | inr new ↦ rw (idle, new, mem-append) (ground (arith, eq_refl name))
  ]

  pub visit_enabled-Extends :
      (fuel : ℕ) (names s : List String)
      → ((x : String) → mem x names ≡ true → mem x enabled ≡ true)
      → Extends [] s (visit_enabled deps enabled fuel names s)
  unfolding visit_enabled mem
  visit_enabled-Extends fuel [] s h = Extends-refl [] s
  visit_enabled-Extends fuel (n ∷ ns) s h =
      let on = h n (rw eq_refl) in
      let rest =
        λ (r : List String). visit_enabled-Extends fuel ns r (λ x m. h x (ground (arith, m))) in
      elim (Bool-cases (mem n s)) [
        | inl old ↦ rw old (rest s)
        | inr new ↦ rw new (Extends-trans [] s _ _ (visit-Extends fuel [] n s on) (rest _))
      ]

  -- one round of the outer loop leaves its name in the list
  mem-round :
      (fuel : ℕ) (n : String) (s : List String)
      → mem n enabled ≡ true
      → count_out [] enabled ≤ fuel
      → mem n (if mem n s then s else visit deps enabled fuel [] n s) ≡ true
  mem-round fuel n s on enough = elim (Bool-cases (mem n s)) [
    | inl old ↦ rw old old
    | inr new ↦ rw new (mem-visit fuel [] n s on (unfold mem in refl) enough)
  ]

  mem-visit_enabled :
      (fuel : ℕ) (names s : List String) (x : String)
      → ((y : String) → mem y names ≡ true → mem y enabled ≡ true)
      → count_out [] enabled ≤ fuel
      → mem x names ≡ true
      → mem x (visit_enabled deps enabled fuel names s) ≡ true
  unfolding visit_enabled mem
  mem-visit_enabled fuel [] s x h enough m = cc
  mem-visit_enabled fuel (n ∷ ns) s x h enough m =
      let later = λ (y : String) (k : mem y ns ≡ true). h y (ground (arith, k)) in
      let s1 = if mem n s then s else visit deps enabled fuel [] n s in
      elim (Bool-cases (mem x ns)) [
        | inl more ↦ mem-visit_enabled fuel ns s1 x later enough more
        | inr last ↦
            let same : n ≡ x = (eq_iff n x).0 (ground (arith, m, last)) in
            (visit_enabled-Extends fuel ns s1 later).grows x
              (rw (← same) (mem-round fuel n s (h n (rw eq_refl)) enough))
      ]

  pub visit_enabled_complete :
      (x : String)
      → Unique (visit_enabled deps enabled (length enabled) enabled [])
        × (mem x (visit_enabled deps enabled (length enabled) enabled []) ≡ mem x enabled)
  unfolding mem
  visit_enabled_complete x =
      let all = visit_enabled-Extends (length enabled) enabled [] (λ y h. h) in
      let there =
        mem-visit_enabled (length enabled) enabled [] x (λ y h. h) (count_out-le [] enabled) in
      (all.unique tt, ground (arith, all.within x, there))

abbrev pub enabled_in : Option PluginState → Bool
enabled_in none = false
enabled_in (some state) = state.enabled

mem-enabled_absent :
    (x : String) (m : Map PluginState) → has x m ≡ false → mem x (enabled_plugins m) ≡ false
unfolding mem enabled_plugins lookup
mem-enabled_absent x [] h = refl
mem-enabled_absent x ((j, p) ∷ m) h = ground (arith, mem-enabled_absent x m)

mem-enabled_plugins :
    (x : String) (m : Map PluginState)
    → Distinct m
    → mem x (enabled_plugins m) ≡ enabled_in (lookup x m)
unfolding mem enabled_plugins lookup
mem-enabled_plugins x [] d = refl
mem-enabled_plugins x ((j, p) ∷ m) d =
    ground (arith, mem-enabled_plugins x m d.1, mem-enabled_absent x m, eq_iff j x)

-- The order holds each plugin that is enabled in the configuration once, and no other, whatever the
-- dependencies are, cyclic ones included.
pub order_complete :
    (load : String → Option (List String)) (plugins : Map PluginState) (x : String)
    → Distinct plugins
    → Unique (order_plugins_by_dependencies load plugins)
      × (mem x (order_plugins_by_dependencies load plugins) ≡ enabled_in (lookup x plugins))
unfolding order_plugins_by_dependencies
order_complete load plugins x d =
    let (unique, all) = visit_enabled_complete (dependencies load) (enabled_plugins plugins) x in
    (unique, all ∙ mem-enabled_plugins x plugins d)
