-- ===== src/Base/Maps.antt =====
-- A Go map with string keys as an association list. The order of the list is the order in which a
-- `range` loop meets the keys; no theorem fixes that order.
use Prim.Native.String.{String}
use mathlib.Core.Path.{◌≡◌, refl, subst₂}
use mathlib.Core.Logic.{inl, inr}
use mathlib.Core.Bool.{Bool, false}
use mathlib.Core.Option.{Option, none, some}
use mathlib.Core.List.{List, [], ◌∷◌}
use native.Mathlib.Omega.{arith}
use text.Mathlib.Text.{◌==◌}
use text.Mathlib.TextEquality.{eq_iff}
use jack.Base.Tests.{if◌then◌else◌, is_some, Bool-cases}

abbrev pub Map {ℓ} : Type ℓ → Type ℓ
Map V = List (String × V)

-- A `range` loop over a nil map does nothing.
abbrev pub entries {ℓ} : {A : Type ℓ} → Option (Map A) → Map A
entries none = []
entries (some m) = m

module _ {ℓ} {V : Type ℓ} where
  unfoldable pub lookup : String → Map V → Option V
  lookup key [] = none
  lookup key ((name, v) ∷ rest) = if name == key then some v else lookup key rest

  -- `_, exists := m[k]`
  abbrev pub has : String → Map V → Bool
  has key entries = is_some (lookup key entries)

  unfoldable pub keys : Map V → List String
  keys [] = []
  keys ((name, v) ∷ rest) = name ∷ keys rest

  -- `delete(m, k)`
  unfoldable pub delete : String → Map V → Map V
  delete key [] = []
  delete key ((name, v) ∷ rest) =
      let others = delete key rest in if name == key then others else (name, v) ∷ others

  -- `m[k] = v`
  unfoldable pub insert : String → V → Map V → Map V
  insert key new [] = (key, new) ∷ []
  insert key new ((name, v) ∷ rest) =
      if name == key then (key, new) ∷ rest else (name, v) ∷ insert key new rest

  pub lookup-insert :
      (key other : String) (new : V) (entries : Map V)
      → lookup other (insert key new entries)
        ≡ (if key == other then some new else lookup other entries)
  unfolding lookup insert
  lookup-insert key other new [] = refl
  lookup-insert key other new ((name, v) ∷ rest) = ground (
    arith,
    lookup-insert key other new rest,
    eq_iff name key,
    eq_iff name other,
    eq_iff key other,
  )

  pub lookup-delete :
      (k j : String) (m : Map V) → lookup j (delete k m) ≡ (if k == j then none else lookup j m)
  unfolding lookup delete
  lookup-delete k j [] = ground arith
  lookup-delete k j ((i, w) ∷ m) =
      ground (arith, eq_iff k j, eq_iff i k, eq_iff i j, lookup-delete k j m)

  pub lookup-nil : (k : String) → lookup k [] ≡ none
  unfolding lookup
  lookup-nil k = refl

pub ruleset map_laws = (lookup-insert, lookup-delete, lookup-nil)

-- No key stands twice, as in every Go map.
module _ {ℓ} {V : Type ℓ} where
  abbrev pub Distinct : Map V → Type 0
  Distinct [] = Unit
  Distinct ((k, v) ∷ m) = (has k m ≡ false) × Distinct m

  has-insert :
      (k j : String) (v : V) (m : Map V)
      → k == j ≡ false
      → has j m ≡ false
      → has j (insert k v m) ≡ false
  has-insert k j v m ne h = rw lookup-insert (rw ne h)

  pub Distinct-insert : (k : String) (v : V) (m : Map V) → Distinct m → Distinct (insert k v m)
  unfolding insert
  Distinct-insert k v [] d = (rw lookup-nil, tt)
  Distinct-insert k v ((j, w) ∷ m) d = elim (Bool-cases (j == k)) [
    | inl e ↦ rw e (rw ((eq_iff j k).0 e) at d)
    | inr ne ↦
        rw ne (
          has-insert k j v m (ground (arith, eq_iff k j, eq_iff j k)) d.0,
          Distinct-insert k v m d.1,
        )
  ]

-- A loop that changes the value at every key.
module _ {ℓ κ} {V : Type ℓ} {W : Type κ} (f : V → W) where
  unfoldable pub map_values : Map V → Map W
  map_values [] = []
  map_values ((k, v) ∷ m) = (k, f v) ∷ map_values m

  abbrev pub map_option : Option V → Option W
  map_option none = none
  map_option (some v) = some (f v)

  pub lookup-map_values :
      (k : String) (m : Map V) → lookup k (map_values m) ≡ map_option (lookup k m)
  unfolding lookup map_values
  lookup-map_values k [] = refl
  lookup-map_values k ((j, v) ∷ m) = elim (Bool-cases (j == k)) [
    | inl e ↦ rw e
    | inr ne ↦ rw ne (lookup-map_values k m)
  ]

  pub Distinct-map_values : (m : Map V) → Distinct m → Distinct (map_values m)
  unfolding map_values
  Distinct-map_values [] d = d
  Distinct-map_values ((k, v) ∷ m) d =
      (rw lookup-map_values (missing (lookup k m) d.0), Distinct-map_values m d.1)
    where
      missing : (o : Option V) → is_some o ≡ false → is_some (map_option o) ≡ false
      missing none h = refl
      missing (some v) h = h

-- A predicate that holds at every entry.
module _ {ℓ κ} {V : Type ℓ} (P : String → V → Type κ) where
  abbrev pub AllEntries : Map V → Type κ
  AllEntries [] = Unit
  AllEntries ((k, v) ∷ m) = P k v × AllEntries m

  pub lookup-AllEntries :
      (k : String) (m : Map V) {v : V} → AllEntries m → lookup k m ≡ some v → P k v
  unfolding lookup
  lookup-AllEntries k [] all h = cc
  lookup-AllEntries k ((j, w) ∷ m) {v} all h = elim (Bool-cases (j == k)) [
    | inl e ↦
        let found : some w ≡ some v = (rw e at h) in
        let same : w ≡ v = cc in subst₂ P ((eq_iff j k).0 e) same all.0
    | inr ne ↦ lookup-AllEntries k m all.1 (rw ne at h)
  ]
