-- ===== src/Base/Int.antt =====
-- Go's `int`, without a bound: the program adds and subtracts none of the integers it checks.
use Prim.Native.Nat.{ℕ, suc}
use mathlib.Core.Path.{◌≡◌, ap}
use mathlib.Core.Logic.{◌↔◌}
use native.Mathlib.Omega.{arith}
use mathlib.Core.Bool.{Bool, true, false}
use jack.Base.Tests.{ltb, eqb}

-- `negsuc n` is -(n + 1).
pub data ℤ : Type 0 where
  pos : ℕ → ℤ
  negsuc : ℕ → ℤ

-- `a < b`
abbrev pub ltz : ℤ → ℤ → Bool
ltz (pos a) (pos b) = ltb a b
ltz (pos a) (negsuc b) = false
ltz (negsuc a) (pos b) = true
ltz (negsuc a) (negsuc b) = ltb b a

abbrev pub negate : ℕ → ℤ
negate ℕ.zero = pos 0
negate (suc n) = negsuc n

-- `a == b`
abbrev pub eqz : ℤ → ℤ → Bool
eqz (pos a) (pos b) = eqb a b
eqz (negsuc a) (negsuc b) = eqb a b
eqz a b = false

eqz-eq : (a b : ℤ) → eqz a b ≡ true → a ≡ b
eqz-eq (pos a) (pos b) e = ap pos (ground arith)
eqz-eq (negsuc a) (negsuc b) e = ap negsuc (ground arith)
eqz-eq (pos a) (negsuc b) e = cc
eqz-eq (negsuc a) (pos b) e = cc

eqz_refl : (a : ℤ) → eqz a a ≡ true
eqz_refl (pos a) = ground arith
eqz_refl (negsuc a) = ground arith

pub eqz_iff : (a b : ℤ) → eqz a b ≡ true ↔ (a ≡ b)
eqz_iff a b = (eqz-eq a b, λ e. rw e (eqz_refl b))
