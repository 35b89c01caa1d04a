-- ===== src/Base/Outcome.antt =====
-- `(value, error)` results. An error is kept as the fixed text of its message, without the values
-- that are formatted into it; `panic` is a run-time panic, which
-- no code of the daemon recovers.
use Prim.Native.String.{String}
use mathlib.Core.Path.{◌≡◌, refl}
use mathlib.Core.Logic.{◌⊎◌, inl, inr}
use mathlib.Core.Bool.{Bool, true, false}

pub data Outcome {ℓ} (A : Type ℓ) : Type ℓ where
  ok : A → Outcome A
  err : String → Outcome A
  panic : String → Outcome A

abbrev pub is_ok {ℓ} : {A : Type ℓ} → Outcome A → Bool
is_ok (ok result) = true
is_ok failed = false

infixl 5 ◌>>=◌ ◌>>◌
abbrev pub ◌>>=◌ {ℓ κ} : {A : Type ℓ} {B : Type κ} → Outcome A → (A → Outcome B) → Outcome B
panic message >>= next = panic message
err message >>= next = err message
ok result >>= next = next result

-- `if b { return err }`
abbrev pub reject : Bool → String → Outcome (Unit {0})
reject false message = ok tt
reject true message = err message

pub >>=-eq-ok {ℓ κ} :
    {A : Type ℓ} {B : Type κ} (first : Outcome A) (next : A → Outcome B) {result : B}
    → (first >>= next) ≡ ok result
    → (a : A) × (first ≡ ok a) × (next a ≡ ok result)
>>=-eq-ok (panic message) next h = cc
>>=-eq-ok (err message) next h = cc
>>=-eq-ok (ok a) next h = (a, refl, h)

abbrev pub ◌>>◌ {ℓ} : {B : Type ℓ} → Outcome (Unit {0}) → Outcome B → Outcome B
check >> next = check >>= λ done. next

pub Outcome-cases {ℓ} :
    {A : Type ℓ} (o : Outcome A)
    → ((a : A) × (o ≡ ok a)) ⊎ (((m : String) × (o ≡ err m)) ⊎ ((m : String) × (o ≡ panic m)))
Outcome-cases (ok a) = inl (a, refl)
Outcome-cases (err m) = inr (inl (m, refl))
Outcome-cases (panic m) = inr (inr (m, refl))
