-- ===== src/Validation/Ranges.antt =====
-- What the checks of integers accept, as ranges of natural numbers.
use jack.Base.{ℕ, ◌≤◌, ◌≡◌, refl, ◌↔◌, none, arith}
use jack.Base.Int.{ℤ, pos, negsuc}
use jack.Validation.{
  validate_port, validate_mtu, validate_vlan_id, validate_table_id, validate_metric,
}

-- The integer is a natural number from `low` to `high`.
abbrev pub InRange : ℕ → ℕ → ℤ → Type 0
InRange low high (pos n) = (low ≤ n) × (n ≤ high)
InRange low high (negsuc n) = ⊥

-- An accepted port is from 1 to 65535, an MTU from 68 to 65535, a VLAN id from 1 to 4094, a table id
-- in 32 bits, a metric not negative; and each such value is accepted.
pub integer_checks :
    (n : ℤ)
    → ((validate_port n ≡ none) ↔ InRange 1 65535 n)
      × ((validate_mtu n ≡ none) ↔ InRange 68 65535 n)
      × ((validate_vlan_id n ≡ none) ↔ InRange 1 4094 n)
      × ((validate_table_id n ≡ none) ↔ InRange 0 4294967295 n)
      × ((validate_metric n ≡ none) ↔ ((m : ℕ) × (n ≡ pos m)))
unfolding validate_port validate_mtu validate_vlan_id validate_table_id validate_metric
integer_checks (pos n) = (
  (λ h. (ground arith, ground arith), λ h. ground (arith, h.0, h.1)),
  (λ h. (ground arith, ground arith), λ h. ground (arith, h.0, h.1)),
  (λ h. (ground arith, ground arith), λ h. ground (arith, h.0, h.1)),
  (λ h. (ground arith, ground arith), λ h. ground (arith, h.0, h.1)),
  (λ h. (n, refl), λ h. ground arith),
)
integer_checks (negsuc n) = (
  (λ h. cc, λ h. absurd h),
  (λ h. cc, λ h. absurd h),
  (λ h. cc, λ h. absurd h),
  (λ h. cc, λ h. absurd h),
  (λ h. cc, λ h. let (m, e) = h in cc),
)
