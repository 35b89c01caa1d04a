-- ===== src/Daemon/Loading/Ends.antt =====
-- The loop over the waves ends.
use jack.Base.{
  ℕ, zero, suc, ◌+◌, ◌≤◌, ◌<◌, String, ◌≡◌, refl, true, false, ◌&&◌, List, [], ◌∷◌, ltb, eqb,
  is_some, arith, eq_iff, eq_refl, inl, inr, Bool-cases,
}
use jack.Base.Lists.{mem, length, Unique, count_out}
use jack.Daemon.Loading.{Loader, Progress, try_plugin, run_wave, remaining, waves, load_plugins}

-- a name that is not among the others does not count
count_out_absent :
    (x : String) (out xs : List String)
    → mem x xs ≡ false
    → count_out (x ∷ out) xs ≡ count_out out xs
unfolding count_out mem
count_out_absent x out [] h = refl
count_out_absent x out (y ∷ ys) h =
    ground (arith, count_out_absent x out ys, eq_iff x y, eq_iff y x)

count_out_marked :
    (x : String) (out xs : List String)
    → Unique xs
    → mem x xs ≡ true
    → mem x out ≡ false
    → count_out (x ∷ out) xs + 1 ≡ count_out out xs
unfolding count_out mem
count_out_marked x out [] u m h = cc
count_out_marked x out (y ∷ ys) u m h =
    ground
      (arith, count_out_marked x out ys u.1, count_out_absent x out ys, eq_iff x y, eq_iff y x, u.0)

count_out-nil : (xs : List String) → count_out [] xs ≡ length xs
unfolding count_out mem
count_out-nil [] = refl
count_out-nil (x ∷ xs) = ground (arith, count_out-nil xs)

module _ (loader : Loader) (enabled : List String) (u : Unique enabled) where
  -- how many plugins are not marked
  abbrev left : Progress loader → ℕ
  left p = count_out p.loaded enabled

  length-remaining : (p : Progress loader) → length (remaining loader enabled p) ≡ left p
  unfolding remaining count_out
  length-remaining p = go enabled
    where
      go : (xs : List String) → length (remaining loader xs p) ≡ count_out p.loaded xs
      go [] = refl
      go (x ∷ xs) = ground (arith, go xs)

  -- One attempt marks what it counts, and no mark is lost.
  record Advances (p q : Progress loader) : Type 0 where
    pub total : length q.loaded + left q ≡ length p.loaded + left p
    pub marks : q.count + left q ≤ p.count + left p

  try_plugin-Advances :
      (name : String) (p : Progress loader)
      → mem name enabled ≡ true
      → Advances p (try_plugin loader name p)
  unfolding try_plugin
  try_plugin-Advances name p on = elim (Bool-cases (mem name p.loaded)) [
    | inl old ↦ rw old (record { total = refl; marks = omega arith })
    | inr new ↦ elim (Bool-cases (loader.can_load name p.world)) [
      | inl can ↦
          let marked = count_out_marked name p.loaded enabled u on new in
          rw (new, can) (record { total = omega (arith, marked); marks = ground (arith, marked) })
      | inr cannot ↦ rw (new, cannot) (record { total = refl; marks = omega arith })
    ]
  ]

  run_wave-Advances :
      (names : List String) (p : Progress loader)
      → ((x : String) → mem x names ≡ true → mem x enabled ≡ true)
      → Advances p (run_wave loader names p)
  unfolding run_wave mem
  run_wave-Advances [] p h = record { total = refl; marks = omega arith }
  run_wave-Advances (name ∷ names) p h =
      let a = try_plugin-Advances name p (h name (rw eq_refl)) in
      let b = run_wave-Advances names (try_plugin loader name p) (λ x m. h x (ground (arith, m))) in
      record { total = omega (arith, a.total, b.total); marks = omega (arith, a.marks, b.marks) }

  -- a wave that the loop goes on after has left fewer plugins
  fewer :
      (p after : Progress loader) {fuel : ℕ}
      → ltb (length p.loaded) (length enabled) ≡ true
      → (eqb after.count 0 && ltb 0 (length (remaining loader enabled after))) ≡ false
      → Advances (record p { count = 0 }) after
      → length p.loaded + left p ≡ length enabled
      → left p + 1 < suc fuel
      → left after + 1 < fuel
  fewer p after short going a total enough =
      ground (arith, a.marks, length-remaining after, total, enough)

  is_some-waves :
      (fuel : ℕ) (p : Progress loader)
      → length p.loaded + left p ≡ length enabled
      → left p + 1 < fuel
      → is_some (waves loader fuel enabled p) ≡ true
  unfolding waves
  is_some-waves zero p total enough = absurd (omega (arith, enough))
  is_some-waves (suc fuel) p total enough =
      let start : Progress loader = record p { count = 0 } in
      let after = run_wave loader enabled start in
      let a = run_wave-Advances enabled start (λ x m. m) in
      elim (Bool-cases (ltb (length p.loaded) (length enabled))) [
        | inr full ↦ rw full refl
        | inl short ↦
            elim (Bool-cases
              (eqb after.count 0 && ltb 0 (length (remaining loader enabled after)))) [
                | inl stuck ↦ rw (short, stuck) refl
                | inr going ↦
                    rw (short, going)
                      (is_some-waves fuel after (omega (arith, total, a.total))
                        (fewer p after short going a total enough))
              ]
      ]

-- The loop over the waves ends, whatever the plugins do, if no plugin is enabled twice.
pub load_plugins-ends :
    (loader : Loader) (enabled : List String) (world : loader.World)
    → Unique enabled
    → is_some (load_plugins loader enabled world) ≡ true
unfolding load_plugins
load_plugins-ends loader enabled world u =
    is_some-waves loader enabled u (suc (suc (length enabled)))
      (record { loaded = []; count = 0; world = world }) (omega (arith, count_out-nil enabled))
      (omega (arith, count_out-nil enabled))
