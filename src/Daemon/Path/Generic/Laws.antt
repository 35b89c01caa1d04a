-- ===== src/Daemon/Path/Generic/Laws.antt =====
-- Writing a nested map at a path, and reading it back.
use jack.Base.{
  String, ◌≡◌, ◌≢◌, ◌⊎◌, inl, inr, refl, Bool, true, false, List, [], ◌∷◌, Option, none, some,
  arith, eq_iff, eq_refl,
}
use jack.Base.Outcome.{Outcome, ok, is_ok, >>=-eq-ok}
use jack.Types.Value.{Value, obj, Fields, find, put, find-put}
use jack.Daemon.Path.Generic.{set_below, set_generic_value, get_generic_value}

-- A write through a key goes through a map that stands there.
set_below-eq-ok :
    (inner : Fields → Outcome Fields) (k : String) (fs : Fields) (o : Option Value) {fs' : Fields}
    → set_below inner k fs o ≡ ok fs'
    → (gs : Fields) × (gs' : Fields) × (o ≡ some (obj gs))
      × (inner gs ≡ ok gs')
      × (fs' ≡ put k (obj gs') fs)
set_below-eq-ok inner k fs none h = cc
set_below-eq-ok inner k fs (some (obj gs)) {fs'} h =
    let (gs', set, e) = >>=-eq-ok (inner gs) _ h in
    let put_back : fs' ≡ put k (obj gs') fs = cc in (gs, gs', refl, set, put_back)
set_below-eq-ok inner k fs (some v) h = cc

-- What was written at a path is read back there.
pub get-set_generic_value :
    (fs fs' : Fields) (k : String) (path : List String) (v : Value)
    → set_generic_value fs (k ∷ path) v ≡ ok fs'
    → get_generic_value fs' k path ≡ ok v
unfolding set_generic_value get_generic_value
get-set_generic_value fs fs' k [] v h = let e : fs' ≡ put k v fs = cc in rw (e, find-put, eq_refl)
get-set_generic_value fs fs' k (j ∷ path) v h =
    let (gs, gs', at, set, e) =
      set_below-eq-ok (λ gs. set_generic_value gs (j ∷ path) v) k fs _ h in
    rw (e, find-put, eq_refl, get_generic_value) (get-set_generic_value gs gs' j path v set)

-- Two paths part at some key, before either ends.
abbrev pub Parts : List String → List String → Type 0
Parts [] q = ⊥
Parts (k ∷ p) [] = ⊥
Parts (k ∷ p) (j ∷ q) = (k ≢ j) ⊎ ((k ≡ j) × Parts p q)

find-put_ne : (k j : String) (v : Value) (fs : Fields) → k ≢ j → find j (put k v fs) ≡ find j fs
find-put_ne k j v fs ne = ground (arith, find-put k j v fs, eq_iff k j)

-- a read depends on the map only at its first key
get_generic_value_at :
    (fs gs : Fields) (j : String) (q : List String)
    → find j fs ≡ find j gs
    → get_generic_value fs j q ≡ get_generic_value gs j q
unfolding get_generic_value
get_generic_value_at fs gs j [] h = rw h
get_generic_value_at fs gs j (i ∷ q) h = rw h

-- A write at one path leaves what is read at a path that parts from it.
pub get-set_generic_value_ne :
    (fs fs' : Fields) (p : List String) (j : String) (q : List String) (v : Value)
    → Parts p (j ∷ q)
    → set_generic_value fs p v ≡ ok fs'
    → get_generic_value fs' j q ≡ get_generic_value fs j q
unfolding set_generic_value get_generic_value
get-set_generic_value_ne fs fs' [] j q v parts h = absurd parts
get-set_generic_value_ne fs fs' (k ∷ []) j q v (inl ne) h =
    let e : fs' ≡ put k v fs = cc in
    rw e (get_generic_value_at (put k v fs) fs j q (find-put_ne k j v fs ne))
get-set_generic_value_ne fs fs' (k ∷ []) j q v (inr (e, parts)) h = absurd parts
get-set_generic_value_ne fs fs' (k ∷ i ∷ p) j q v (inl ne) h =
    let (gs, gs', at, set, e) = set_below-eq-ok (λ gs. set_generic_value gs (i ∷ p) v) k fs _ h in
    rw e (get_generic_value_at (put k (obj gs') fs) fs j q (find-put_ne k j (obj gs') fs ne))
get-set_generic_value_ne fs fs' (k ∷ i ∷ p) j [] v (inr (same, parts)) h = absurd parts
get-set_generic_value_ne fs fs' (k ∷ i ∷ p) j (l ∷ q) v (inr (same, parts)) h =
    let (gs, gs', at, set, e) = set_below-eq-ok (λ gs. set_generic_value gs (i ∷ p) v) k fs _ h in
    rw (e, ← same, find-put, eq_refl, at, get_generic_value)
      (get-set_generic_value_ne gs gs' (i ∷ p) l q v parts set)

-- The maps on the way to the last key are there.
abbrev pub reaches_below : (Fields → Bool) → Option Value → Bool
reaches_below inner (some (obj gs)) = inner gs
reaches_below inner o = false

unfoldable pub reaches : Fields → List String → Bool
reaches fs [] = false
reaches fs (k ∷ []) = true
reaches fs (k ∷ i ∷ path) = reaches_below (λ gs. reaches gs (i ∷ path)) (find k fs)

is_ok-set_below :
    (inner : Fields → Outcome Fields) (test : Fields → Bool) (k : String) (fs : Fields)
    (o : Option Value)
    → ((gs : Fields) → is_ok (inner gs) ≡ test gs)
    → is_ok (set_below inner k fs o) ≡ reaches_below test o
is_ok-set_below inner test k fs none h = refl
is_ok-set_below inner test k fs (some (obj gs)) h = ground (arith, h gs)
is_ok-set_below inner test k fs (some v) h = refl

-- A write succeeds exactly when the maps on the way are there.
pub is_ok-set_generic_value :
    (fs : Fields) (path : List String) (v : Value)
    → is_ok (set_generic_value fs path v) ≡ reaches fs path
unfolding set_generic_value reaches
is_ok-set_generic_value fs [] v = refl
is_ok-set_generic_value fs (k ∷ []) v = refl
is_ok-set_generic_value fs (k ∷ i ∷ path) v =
    is_ok-set_below (λ gs. set_generic_value gs (i ∷ path) v) (λ gs. reaches gs (i ∷ path)) k fs
      (find k fs) (λ gs. is_ok-set_generic_value gs (i ∷ path) v)
