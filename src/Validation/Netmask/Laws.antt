-- ===== src/Validation/Netmask/Laws.antt =====
-- The test for a contiguous netmask: a word and its successor have no bit in common exactly if the
-- successor is a power of two.
use jack.Base.{
  ℕ, zero, suc, ◌+◌, ◌-◌, ◌*◌, ◌/◌, ◌%◌, ◌^◌, ◌≤◌, ◌<◌, ◌≡◌, refl, ◌∙◌, ◌⊎◌, inl, inr, ◌↔◌, true,
  eqb, arith, Bool-cases,
}
use jack.Validation.Netmask.{band, is_contiguous}

parity : (n : ℕ) → ((m : ℕ) × (n ≡ 2 * m)) ⊎ ((m : ℕ) × (n ≡ 2 * m + 1))
parity zero = inl (0, refl)
parity (suc n) = elim (parity n) [
  | inl (m, e) ↦ inr (m, omega (arith, e))
  | inr (m, e) ↦ inl (m + 1, omega (arith, e))
]

-- one step of `band`, by the last bits
module _ (w m : ℕ) where
  band-even : (n : ℕ) → n ≡ 2 * m → band (suc w) n n ≡ 2 * band w m m
  unfolding band
  band-even n e =
      let last : n % 2 ≡ 0 = omega (arith, e) in
      let half : n / 2 ≡ m = omega (arith, e) in rw (last, half) (omega arith)

  band-odd : (n : ℕ) → n ≡ 2 * m + 1 → band (suc w) n n ≡ 1 + 2 * band w m m
  unfolding band
  band-odd n e =
      let last : n % 2 ≡ 1 = omega (arith, e) in
      let half : n / 2 ≡ m = omega (arith, e) in rw (last, half) (omega arith)

  band-suc-even : (n : ℕ) → n ≡ 2 * m → band (suc w) (n + 1) n ≡ 2 * band w m m
  unfolding band
  band-suc-even n e =
      let last : n % 2 ≡ 0 = omega (arith, e) in
      let half : n / 2 ≡ m = omega (arith, e) in
      let half' : (n + 1) / 2 ≡ m = omega (arith, e) in rw (last, half, half') (omega arith)

  band-suc-odd : (n : ℕ) → n ≡ 2 * m + 1 → band (suc w) (n + 1) n ≡ 2 * band w (m + 1) m
  unfolding band
  band-suc-odd n e =
      let last : (n + 1) % 2 ≡ 0 = omega (arith, e) in
      let half : n / 2 ≡ m = omega (arith, e) in
      let half' : (n + 1) / 2 ≡ m + 1 = omega (arith, e) in rw (last, half, half') (omega arith)

band_self : (w n : ℕ) → n < 2 ^ w → band w n n ≡ n
band_self zero n lt = unfold band in omega arith
band_self (suc w) n lt = elim (parity n) [
  | inl (m, e) ↦ band-even w m n e ∙ omega (arith, e, band_self w m (omega (arith, e, lt)))
  | inr (m, e) ↦ band-odd w m n e ∙ omega (arith, e, band_self w m (omega (arith, e, lt)))
]

0-lt-power : (w : ℕ) → 0 < 2 ^ w
0-lt-power zero = omega arith
0-lt-power (suc w) = omega (arith, 0-lt-power w)

-- without a wrap-around
band_suc-power :
    (w n : ℕ) → n + 1 < 2 ^ w → band w (n + 1) n ≡ 0 → (k : ℕ) × (k < w) × (n + 1 ≡ 2 ^ k)
band_suc-power zero n lt h = absurd (omega (arith, lt))
band_suc-power (suc w) n lt h = elim (parity n) [
  | inl (m, e) ↦
      let zeros : m ≡ 0 =
        omega (arith, h, band-suc-even w m n e, band_self w m (omega (arith, e, lt))) in
      (0, omega arith, omega (arith, e, zeros))
  | inr (m, e) ↦
      let (k, small, power) =
        band_suc-power w m (omega (arith, e, lt)) (omega (arith, h, band-suc-odd w m n e)) in
      (suc k, omega (arith, small), omega (arith, e, power))
]

power-band_suc : (w k n : ℕ) → k < w → n + 1 ≡ 2 ^ k → band w (n + 1) n ≡ 0
power-band_suc zero k n lt e = absurd (omega (arith, lt))
power-band_suc (suc w) zero n lt e =
    let none_set : n ≡ 0 = omega (arith, e) in
    band-suc-even w 0 n none_set ∙ omega (arith, band_self w 0 (0-lt-power w))
power-band_suc (suc w) (suc k) n lt e = elim (parity n) [
  | inl (m, even) ↦ absurd (omega (arith, e, even))
  | inr (m, odd) ↦
      band-suc-odd w m n odd
      ∙ omega (arith, power-band_suc w k m (omega (arith, lt)) (omega (arith, e, odd)))
]

zero_or_more : (n : ℕ) → (n ≡ 0) ⊎ (0 < n)
zero_or_more zero = inl refl
zero_or_more (suc n) = inr (omega arith)

smaller : {mask : ℕ} (k : ℕ) → k ≤ 32 → mask + 2 ^ k ≡ 2 ^ 32 → 0 < mask → k < 32
smaller {mask} k le e more = elim (Bool-cases (eqb k 32)) [
  | inl same ↦
      let at_end : k ≡ 32 = ground arith in
      let whole : mask + 2 ^ 32 ≡ 2 ^ 32 = (rw at_end at e) in absurd (omega (arith, whole, more))
  | inr other ↦ ground arith
]

module _ (mask : ℕ) (lt : mask < 2 ^ 32) where
  inverted : ℕ
  inverted = 2 ^ 32 - 1 - mask

  accepts-zero : mask ≡ 0 → is_contiguous mask ≡ true
  unfolding is_contiguous
  accepts-zero e = ground (arith, e)

  -- nothing wraps around for another word
  accepts_iff : 0 < mask → (is_contiguous mask ≡ true) ↔ (band 32 (inverted + 1) inverted ≡ 0)
  unfolding is_contiguous inverted
  accepts_iff some_set =
      let kept : (2 ^ 32 - 1 - mask + 1) % 2 ^ 32 ≡ 2 ^ 32 - 1 - mask + 1 = omega arith in
      (λ h. ground (arith, kept, h), λ h. ground (arith, kept, h))

  inverted-eq : inverted + 1 + mask ≡ 2 ^ 32
  unfolding inverted
  inverted-eq = omega (arith, lt)

  accepted : is_contiguous mask ≡ true → (zeros : ℕ) × (zeros ≤ 32) × (mask + 2 ^ zeros ≡ 2 ^ 32)
  accepted h = elim (zero_or_more mask) [
    | inl e ↦ (32, omega arith, omega (arith, e))
    | inr more ↦
        let (k, small, power) =
          band_suc-power 32 inverted (omega (arith, inverted-eq, more)) ((accepts_iff more).0 h) in
        (k, omega (arith, small), omega (arith, inverted-eq, power))
  ]

  run-accepts : (k : ℕ) → k ≤ 32 → mask + 2 ^ k ≡ 2 ^ 32 → is_contiguous mask ≡ true
  run-accepts k le e = elim (zero_or_more mask) [
    | inl none_set ↦ accepts-zero none_set
    | inr more ↦
        (accepts_iff more).1
          (power-band_suc 32 k inverted (smaller k le e more) (omega (arith, inverted-eq, e)))
  ]

-- The test accepts a word exactly if it is a run of ones, then a run of zeros, of 32 bits together.
pub is_contiguous_lem :
    (mask : ℕ)
    → mask < 2 ^ 32
    → (is_contiguous mask ≡ true) ↔ ((zeros : ℕ) × (zeros ≤ 32) × (mask + 2 ^ zeros ≡ 2 ^ 32))
is_contiguous_lem mask lt =
    (accepted mask lt, λ run. let (zeros, le, e) = run in run-accepts mask lt zeros le e)
