-- ===== src/Base/Text.antt =====
-- Go strings as texts: splitting at a separator, joining, and tests of single characters. The
-- program's separators are ASCII, so splitting by characters and by bytes agree.
use Prim.Native.Char.{Char, code}
use Prim.Native.String.{String, ◌++◌}
use mathlib.Core.Path.{◌≡◌, refl, sym, ap, ◌∙◌}
use mathlib.Core.Logic.{inl, inr}
use mathlib.Core.Bool.{Bool, true, false, ◌||◌}
use mathlib.Core.List.{List, [], ◌∷◌}
use native.Mathlib.Omega.{arith}
use text.Mathlib.TextEquality.{Char-path}
use text.Mathlib.TextLemmas.{nil-append, cons-append}
use jack.Base.Tests.{eqb, if◌then◌else◌, Bool-cases}

abbrev pub is_char : Char → Char → Bool
is_char a b = eqb (code a) (code b)

is_char-eq : (a b : Char) → is_char a b ≡ true → a ≡ b
is_char-eq a b h = Char-path a b (ground arith)

-- the first part of a split gets one more character
abbrev push : Char → List String → List String
push c [] = (String.◌∷◌ c String.[]) ∷ []
push c (w ∷ ws) = (String.◌∷◌ c w) ∷ ws

-- `strings.Split(s, sep)` for a separator of one character
unfoldable pub split : Char → String → List String
split sep String.[] = String.[] ∷ []
split sep (String.◌∷◌ c s) =
    let rest = split sep s in if is_char c sep then String.[] ∷ rest else push c rest

-- `strings.Join(parts, sep)`
unfoldable pub join : Char → List String → String
join sep [] = String.[]
join sep (w ∷ []) = w
join sep (w ∷ v ∷ ws) = w ++ String.◌∷◌ sep (join sep (v ∷ ws))

-- `strings.Contains(s, sep)`
unfoldable pub contains : Char → String → Bool
contains sep String.[] = false
contains sep (String.◌∷◌ c s) = is_char c sep || contains sep s

abbrev pub AllPlain : Char → List String → Type 0
AllPlain sep [] = Unit
AllPlain sep (w ∷ ws) = (contains sep w ≡ false) × AllPlain sep ws

join-push : (sep c : Char) (ws : List String) → join sep (push c ws) ≡ String.◌∷◌ c (join sep ws)
unfolding join
join-push sep c [] = refl
join-push sep c (w ∷ []) = refl
join-push sep c (w ∷ v ∷ ws) = cons-append c w (String.◌∷◌ sep (join sep (v ∷ ws)))

abbrev IsCons : List String → Type 0
IsCons [] = ⊥
IsCons (w ∷ ws) = Unit

push-IsCons : (c : Char) (ws : List String) → IsCons (push c ws)
push-IsCons c [] = tt
push-IsCons c (w ∷ ws) = tt

split-IsCons : (sep : Char) (s : String) → IsCons (split sep s)
unfolding split
split-IsCons sep String.[] = tt
split-IsCons sep (String.◌∷◌ c s) = elim (Bool-cases (is_char c sep)) [
  | inl e ↦ rw e tt
  | inr ne ↦ rw ne (push-IsCons c (split sep s))
]

join-empty :
    (sep : Char) (ws : List String)
    → IsCons ws
    → join sep (String.[] ∷ ws) ≡ String.◌∷◌ sep (join sep ws)
unfolding join
join-empty sep [] h = absurd h
join-empty sep (w ∷ ws) h = nil-append (String.◌∷◌ sep (join sep (w ∷ ws)))

-- Joining what was split gives the text back.
pub join-split : (sep : Char) (s : String) → join sep (split sep s) ≡ s
unfolding split
join-split sep String.[] = unfold join in refl
join-split sep (String.◌∷◌ c s) = elim (Bool-cases (is_char c sep)) [
  | inl e ↦ rw e (
      join-empty sep (split sep s) (split-IsCons sep s)
      ∙ ap (String.◌∷◌ sep) (join-split sep s)
      ∙ ap (λ d. String.◌∷◌ d s) (sym (is_char-eq c sep e)))
  | inr ne ↦ rw ne (join-push sep c (split sep s) ∙ ap (String.◌∷◌ c) (join-split sep s))
]

split_plain : (sep : Char) (w : String) → contains sep w ≡ false → split sep w ≡ w ∷ []
unfolding split contains
split_plain sep String.[] h = refl
split_plain sep (String.◌∷◌ c w) h = ground (arith, split_plain sep w)

split-append :
    (sep : Char) (w s : String)
    → contains sep w ≡ false
    → split sep (w ++ String.◌∷◌ sep s) ≡ w ∷ split sep s
unfolding split contains
split-append sep String.[] s h = rw nil-append (ground arith)
split-append sep (String.◌∷◌ c w) s h = rw cons-append (ground (arith, split-append sep w s))

-- Splitting what was joined gives the parts back, if there is one and none holds the separator.
pub split-join :
    (sep : Char) (w : String) (ws : List String)
    → AllPlain sep (w ∷ ws)
    → split sep (join sep (w ∷ ws)) ≡ w ∷ ws
unfolding join
split-join sep w [] h = split_plain sep w h.0
split-join sep w (v ∷ ws) h =
    split-append sep w (join sep (v ∷ ws)) h.0 ∙ ap (◌∷◌ w) (split-join sep v ws h.1)
