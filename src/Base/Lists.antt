-- ===== src/Base/Lists.antt =====
-- Lists measured by native numbers, under the library's names, and membership of texts.
use Prim.Native.Nat.{ℕ, zero, suc, ◌+◌, ◌-◌, ◌≤◌, ◌<◌}
use Prim.Native.String.{String}
use mathlib.Core.Path.{◌≡◌, refl}
use mathlib.Core.Bool.{Bool, true, false, ◌||◌}
use mathlib.Core.List.{List, [], ◌∷◌, ◌++◌}
use mathlib.Core.Option.{Option, none, some}
use native.Mathlib.Omega.{arith}
use text.Mathlib.Text.{◌==◌}
use text.Mathlib.TextEquality.{eq_iff}
use jack.Base.Tests.{if◌then◌else◌}

module _ {ℓ} {A : Type ℓ} where
  abbrev pub length : List A → ℕ
  length [] = 0
  length (x ∷ xs) = suc (length xs)

  abbrev pub take : ℕ → List A → List A
  take zero xs = []
  take (suc n) [] = []
  take (suc n) (x ∷ xs) = x ∷ take n xs

  abbrev pub drop : ℕ → List A → List A
  drop zero xs = xs
  drop (suc n) [] = []
  drop (suc n) (x ∷ xs) = drop n xs

  abbrev pub get_last? : List A → Option A
  get_last? [] = none
  get_last? (x ∷ []) = some x
  get_last? (x ∷ y ∷ xs) = get_last? (y ∷ xs)

  pub length-append : (xs ys : List A) → length (xs ++ ys) ≡ length xs + length ys
  length-append [] ys = omega arith
  length-append (x ∷ xs) ys = omega (arith, length-append xs ys)

  pub length-drop : (n : ℕ) (xs : List A) → length (drop n xs) ≡ length xs - n
  length-drop zero xs = omega arith
  length-drop (suc n) [] = omega arith
  length-drop (suc n) (x ∷ xs) = omega (arith, length-drop n xs)

-- Membership as the program's loops test it.
unfoldable pub mem : String → List String → Bool
mem k [] = false
mem k (x ∷ xs) = x == k || mem k xs

pub mem-append : (k : String) (xs ys : List String) → mem k (xs ++ ys) ≡ (mem k xs || mem k ys)
unfolding mem
mem-append k [] ys = refl
mem-append k (x ∷ xs) ys = ground (arith, mem-append k xs ys)

-- No text stands twice.
abbrev pub Unique : List String → Type 0
Unique [] = Unit
Unique (x ∷ xs) = (mem x xs ≡ false) × Unique xs

pub Unique-concat :
    (xs : List String) (x : String) → Unique xs → mem x xs ≡ false → Unique (xs ++ x ∷ [])
unfolding mem
Unique-concat [] x u h = (refl, tt)
Unique-concat (y ∷ ys) x u h = (
  ground (arith, mem-append y ys (x ∷ []), eq_iff y x, eq_iff x y, u.0),
  Unique-concat ys x u.1 (ground arith),
)

-- How many of the names are not among the others.
unfoldable pub count_out : List String → List String → ℕ
count_out out [] = 0
count_out out (x ∷ xs) = (if mem x out then 0 else 1) + count_out out xs

pub count_out-le : (out xs : List String) → count_out out xs ≤ length xs
unfolding count_out
count_out-le out [] = omega arith
count_out-le out (x ∷ xs) = ground (arith, count_out-le out xs)

pub count_out_mono : (x : String) (out xs : List String) → count_out (x ∷ out) xs ≤ count_out out xs
unfolding count_out mem
count_out_mono x out [] = omega arith
count_out_mono x out (y ∷ ys) = ground (arith, count_out_mono x out ys)

-- Leaving one more name out that is there lowers the count.
pub count_out_lt :
    (x : String) (out xs : List String)
    → mem x xs ≡ true
    → mem x out ≡ false
    → count_out (x ∷ out) xs < count_out out xs
unfolding count_out mem
count_out_lt x out [] m h = cc
count_out_lt x out (y ∷ ys) m h =
    ground (arith, count_out_lt x out ys, count_out_mono x out ys, eq_iff x y, eq_iff y x)
