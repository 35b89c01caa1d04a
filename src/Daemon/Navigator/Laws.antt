-- ===== src/Daemon/Navigator/Laws.antt =====
-- Setting a field and reading the fields back.
use jack.Base.{
  String, ◌==◌, Bool, false, ◌≡◌, refl, List, [], Option, none, some, arith, if◌then◌else◌,
}
use jack.Base.Int.{ℤ, pos}
use jack.Base.Maps.{lookup, insert, lookup-insert, AllEntries, lookup-AllEntries}
use jack.Base.Outcome.{Outcome, ok, err, >>=-eq-ok}
use jack.Types.Value.{Value}
use jack.Types.Network.{Ipv6Config, WireGuardPeer, Interface, Route}
use jack.Daemon.Navigator.{
  Field, string, boolean, int, strings, peers, ipv6, Struct, set_field_value, set_struct_field,
  get_struct_field, interface_struct, struct_interface, route_struct, struct_route,
}

-- the view loses nothing
pub struct_interface-interface_struct : (i : Interface) → struct_interface (interface_struct i) ≡ i
unfolding struct_interface interface_struct lookup
struct_interface-interface_struct i = refl

pub struct_route-route_struct : (r : Route) → struct_route (route_struct r) ≡ r
unfolding struct_route route_struct lookup
struct_route-route_struct r = refl

abbrev pub SameKind : Field → Field → Type 0
SameKind (string a) (string b) = Unit
SameKind (boolean a) (boolean b) = Unit
SameKind (int a) (int b) = Unit
SameKind (strings a) (strings b) = Unit
SameKind (peers a) (peers b) = Unit
SameKind (ipv6 a) (ipv6 b) = Unit
SameKind _ _ = ⊥

-- a conversion keeps the kind of the field
pub set_field_value-SameKind :
    (f : Field) (v : Value) {g : Field} → set_field_value f v ≡ ok g → SameKind f g
unfolding set_field_value
set_field_value-SameKind (string s) v {g} h = ground arith
set_field_value-SameKind f v h = ground arith

-- A claim about every field of the kind of a given one, by the kind.
module _ (P : Field → Type 0) where
  as_string : ((t : String) → P (string t)) → (g : Field) → SameKind (string "") g → P g
  as_string at (string t) h = at t
  as_string at _ h = absurd h

  as_boolean : ((b : Bool) → P (boolean b)) → (g : Field) → SameKind (boolean false) g → P g
  as_boolean at (boolean b) h = at b
  as_boolean at _ h = absurd h

  as_int : ((n : ℤ) → P (int n)) → (g : Field) → SameKind (int (pos 0)) g → P g
  as_int at (int n) h = at n
  as_int at _ h = absurd h

  as_strings : ((l : List String) → P (strings l)) → (g : Field) → SameKind (strings []) g → P g
  as_strings at (strings l) h = at l
  as_strings at _ h = absurd h

  as_peers : ((l : List WireGuardPeer) → P (peers l)) → (g : Field) → SameKind (peers []) g → P g
  as_peers at (peers l) h = at l
  as_peers at _ h = absurd h

  as_ipv6 : ((p : Option Ipv6Config) → P (ipv6 p)) → (g : Field) → SameKind (ipv6 none) g → P g
  as_ipv6 at (ipv6 p) h = at p
  as_ipv6 at _ h = absurd h

-- Putting a value of the right kind in a view and taking the struct's view again changes nothing.
abbrev Rebuilds : (Struct → Struct) → Struct → String → Field → Type 0
Rebuilds rebuild s k f = (g : Field) → SameKind f g → rebuild (insert k g s) ≡ insert k g s

route-Rebuilds :
    (r : Route)
    → AllEntries (Rebuilds (λ s. route_struct (struct_route s)) (route_struct r)) (route_struct r)
unfolding route_struct struct_route insert lookup
route-Rebuilds r = (
  as_string _ (λ t. refl),
  (
    as_string _ (λ t. refl),
    (
      as_string _ (λ t. refl),
      (
        as_string _ (λ t. refl),
        (
          as_string _ (λ t. refl),
          (as_int _ (λ t. refl), (as_int _ (λ t. refl), (as_boolean _ (λ t. refl), tt))),
        ),
      ),
    ),
  ),
)

interface-Rebuilds :
    (i : Interface)
    → AllEntries
        (Rebuilds (λ s. interface_struct (struct_interface s)) (interface_struct i))
        (interface_struct i)
unfolding interface_struct struct_interface insert lookup
interface-Rebuilds i = (
  as_ipv6 _ (λ t. refl),
  (
    as_string _ (λ t. refl),
    (
      as_string _ (λ t. refl),
      (
        as_string _ (λ t. refl),
        (
          as_string _ (λ t. refl),
          (
            as_string _ (λ t. refl),
            (
              as_string _ (λ t. refl),
              (
                as_string _ (λ t. refl),
                (
                  as_string _ (λ t. refl),
                  (
                    as_string _ (λ t. refl),
                    (
                      as_string _ (λ t. refl),
                      (
                        as_strings _ (λ t. refl),
                        (
                          as_strings _ (λ t. refl),
                          (
                            as_peers _ (λ t. refl),
                            (
                              as_int _ (λ t. refl),
                              (
                                as_int _ (λ t. refl),
                                (
                                  as_int _ (λ t. refl),
                                  (
                                    as_int _ (λ t. refl),
                                    (
                                      as_int _ (λ t. refl),
                                      (as_boolean _ (λ t. refl), (as_boolean _ (λ t. refl), tt)),
                                    ),
                                  ),
                                ),
                              ),
                            ),
                          ),
                        ),
                      ),
                    ),
                  ),
                ),
              ),
            ),
          ),
        ),
      ),
    ),
  ),
)

-- What a successful `setStructField` returns: the converted value at the field, nothing else
-- changed.
pub set_struct_field-eq-ok :
    (s t : Struct) (k : String) (v : Value)
    → set_struct_field s k v ≡ ok t
    → (f : Field) × (g : Field) × (lookup k s ≡ some f)
      × (set_field_value f v ≡ ok g)
      × (t ≡ insert k g s)
unfolding set_struct_field
set_struct_field-eq-ok s t k v h =
    let (f, at, h') = >>=-eq-ok (get_struct_field s k) _ h in
    let (g, set, h'') = >>=-eq-ok (set_field_value f v) _ h' in
    (f, g, ground arith, set, ground arith)

-- the converted value, where the field is
abbrev pub converted : Value → Option Field → Outcome Field
converted v none = err "unknown field"
converted v (some f) = set_field_value f v

get-insert :
    (s : Struct) (k j : String) (g : Field)
    → get_struct_field (insert k g s) j ≡ (if k == j then ok g else get_struct_field s j)
unfolding get_struct_field
get-insert s k j g = rw (lookup-insert, get_struct_field) (ground arith)

-- Setting a field of an interface by its tag: the field then reads as the converted value, and
-- every other field reads as before.
pub get-set_interface_field :
    (i : Interface) (s : Struct) (k j : String) (v : Value)
    → set_struct_field (interface_struct i) k v ≡ ok s
    → get_struct_field (interface_struct (struct_interface s)) j ≡ (
        if k == j
        then converted v (lookup k (interface_struct i))
        else get_struct_field (interface_struct i) j)
get-set_interface_field i s k j v h =
    let (f, g, at, set, e) = set_struct_field-eq-ok (interface_struct i) s k v h in
    let kept =
      lookup-AllEntries _ k (interface_struct i) (interface-Rebuilds i) at g
        (set_field_value-SameKind f v set) in
    rw (e, kept, at, get-insert) (rw set)

-- Setting a field of a route by its tag: the field then reads as the converted value, and every
-- other field reads as before.
pub get-set_route_field :
    (r : Route) (s : Struct) (k j : String) (v : Value)
    → set_struct_field (route_struct r) k v ≡ ok s
    → get_struct_field (route_struct (struct_route s)) j ≡ (
        if k == j
        then converted v (lookup k (route_struct r))
        else get_struct_field (route_struct r) j)
get-set_route_field r s k j v h =
    let (f, g, at, set, e) = set_struct_field-eq-ok (route_struct r) s k v h in
    let kept =
      lookup-AllEntries _ k (route_struct r) (route-Rebuilds r) at g
        (set_field_value-SameKind f v set) in
    rw (e, kept, at, get-insert) (rw set)
