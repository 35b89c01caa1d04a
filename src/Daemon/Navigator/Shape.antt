-- ===== src/Daemon/Navigator/Shape.antt =====
-- Setting a field keeps the Go type of the struct.
use mathlib.Core.Path.{subst}
use jack.Base.{String, ◌==◌, ◌≡◌, refl, [], ◌∷◌, some, inl, inr, eq_iff, Bool-cases}
use jack.Base.Maps.{lookup, insert}
use jack.Base.Outcome.{ok}
use jack.Types.Value.{Value}
use jack.Daemon.Navigator.{
  Field, string, boolean, int, strings, peers, ipv6, Struct, set_struct_field,
}
use jack.Daemon.Navigator.Laws.{SameKind, set_field_value-SameKind, set_struct_field-eq-ok}

-- The fields of a struct and their kinds, its type.
abbrev pub SameShape : Struct → Struct → Type 0
SameShape [] [] = Unit
SameShape ((j, f) ∷ s) ((k, g) ∷ t) = (j ≡ k) × SameKind f g × SameShape s t
SameShape s t = ⊥

SameKind-refl : (f : Field) → SameKind f f
SameKind-refl (string a) = tt
SameKind-refl (boolean a) = tt
SameKind-refl (int a) = tt
SameKind-refl (strings a) = tt
SameKind-refl (peers a) = tt
SameKind-refl (ipv6 a) = tt

SameShape-refl : (s : Struct) → SameShape s s
SameShape-refl [] = tt
SameShape-refl ((k, f) ∷ s) = (refl, SameKind-refl f, SameShape-refl s)

insert-SameShape :
    (s : Struct) (k : String) (f g : Field)
    → lookup k s ≡ some f
    → SameKind f g
    → SameShape s (insert k g s)
unfolding lookup insert
insert-SameShape [] k f g at same = cc
insert-SameShape ((j, h) ∷ s) k f g at same = elim (Bool-cases (j == k)) [
  | inl e ↦
      let there : some h ≡ some f = (rw e at at) in
      let is : f ≡ h = cc in
      rw e ((eq_iff j k).0 e, subst (λ x. SameKind x g) is same, SameShape-refl s)
  | inr ne ↦ rw ne (refl, SameKind-refl h, insert-SameShape s k f g (rw ne at at) same)
]

-- A field that is set by its tag, with a value of whatever JSON type, leaves a struct of the same
-- Go type: it has the same fields in the same order, each of the kind that it had.
pub set_struct_field-SameShape :
    (s t : Struct) (k : String) (v : Value) → set_struct_field s k v ≡ ok t → SameShape s t
set_struct_field-SameShape s t k v h =
    let (f, g, at, set, e) = set_struct_field-eq-ok s t k v h in
    rw e (insert-SameShape s k f g at (set_field_value-SameKind f v set))
