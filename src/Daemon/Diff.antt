-- ===== src/Daemon/Diff.antt =====
-- daemon/diff.go: what a pending configuration changes, and the handler of daemon/server.go that
-- reports it. `reflect.DeepEqual` is equality by parts, and tells a nil slice from an empty one:
-- `Slices` says where two slices without elements differ so.
pub mod Equal
pub mod Empty
pub mod Panics
use Prim.Native.String.{◌++◌ as append}
use jack.Base.{
  String, ◌==◌, Bool, true, false, not, ◌&&◌, ◌||◌, Option, none, some, List, [], ◌∷◌, ◌++◌, eqb,
  is_some, if◌then◌else◌,
}
use jack.Base.Int.{ℤ, pos, eqz}
use jack.Base.Maps.{Map, lookup, has, entries}
use jack.Base.Outcome.{Outcome, ok, err, panic, ◌>>=◌}
use jack.Types.Network.{
  WireGuardPeer, Ipv6Config, Interface, InterfacesConfig, Route, RoutesConfig, JackConfig,
  PluginState, ObserverConfig, LoggingConfig,
}
use jack.Daemon.Config.{Config, interfaces, routes, jack_config, plugin, nil_map}
use jack.Daemon.Commit.{Response}
use jack.Daemon.Navigator.{
  Field, string, boolean, int, strings, peers, ipv6, Struct, interface_struct,
}
use jack.Daemon.State.{
  State, load, loaded, as_interfaces, has_pending, get_pending_types, get_committed, get_current,
}

abbrev pub same_bool : Bool → Bool → Bool
same_bool true b = b
same_bool false b = not b

unfoldable pub all_same {ℓ} : {A : Type ℓ} → (A → A → Bool) → List A → List A → Bool
all_same same [] [] = true
all_same same (x ∷ xs) (y ∷ ys) = let rest = all_same same xs ys in same x y && rest
all_same same [] (y ∷ ys) = false
all_same same (x ∷ xs) [] = false

unfoldable pub same_peer : WireGuardPeer → WireGuardPeer → Bool
same_peer p q =
    p.public_key == q.public_key
    && (p.preshared_key == q.preshared_key
        && (p.endpoint == q.endpoint
            && (p.comment == q.comment
                && (all_same (λ a b. a == b) p.allowed_ips q.allowed_ips
                    && eqz p.persistent_keepalive q.persistent_keepalive))))

unfoldable pub same_ipv6 : Ipv6Config → Ipv6Config → Bool
same_ipv6 p q =
    p.protocol == q.protocol
    && (p.ip6_addr == q.ip6_addr
        && (p.ip6_gw == q.ip6_gw
            && (p.ip6_prefix == q.ip6_prefix
                && (all_same (λ a b. a == b) p.dns6 q.dns6 && same_bool p.enabled q.enabled))))

unfoldable pub same_option {ℓ} : {A : Type ℓ} → (A → A → Bool) → Option A → Option A → Bool
same_option same none none = true
same_option same (some a) (some b) = same a b
same_option same none (some b) = false
same_option same (some a) none = false

unfoldable pub deep_equal : Field → Field → Bool
deep_equal (string a) (string b) = a == b
deep_equal (boolean a) (boolean b) = same_bool a b
deep_equal (int a) (int b) = eqz a b
deep_equal (strings a) (strings b) = all_same (λ x y. x == y) a b
deep_equal (peers a) (peers b) = all_same same_peer a b
deep_equal (ipv6 a) (ipv6 b) = same_option same_ipv6 a b
deep_equal _ _ = false

abbrev pub is_empty {ℓ} : {A : Type ℓ} → List A → Bool
is_empty [] = true
is_empty (x ∷ xs) = false

unfoldable pub is_zero_value : Field → Bool
is_zero_value (string a) = a == ""
is_zero_value (boolean a) = not a
is_zero_value (int a) = eqz a (pos 0)
is_zero_value (strings a) = is_empty a
is_zero_value (peers a) = is_empty a
is_zero_value (ipv6 a) = not (is_some a)

-- Whether one of two slices without elements is nil and the other is not: in the field at a path, or
-- in what that field holds, a peer or an IPv6 configuration.
pub record Slices : Type 0 where
  pub outer : String → Bool
  pub inner : String → Bool

has_empty : List WireGuardPeer → Bool
has_empty [] = false
has_empty (p ∷ ps) = is_empty p.allowed_ips || has_empty ps

-- A difference that only `reflect.DeepEqual` sees, in fields with the same elements.
unfoldable pub nil_differs : Slices → String → Field → Bool
unfolding has_empty
nil_differs n path (strings l) = is_empty l && n.outer path
nil_differs n path (peers []) = n.outer path
nil_differs n path (peers (p ∷ ps)) = has_empty (p ∷ ps) && n.inner path
nil_differs n path (ipv6 (some c)) = is_empty c.dns6 && n.inner path
nil_differs n path f = false

-- `Old` and `New`, an interface or a field of one, or nil.
pub data Shown : Type 0 where
  nothing : Shown
  a_field : Field → Shown
  an_interface : Interface → Shown
  another_value : Shown

pub record DiffResult : Type 0 where
  pub path : String
  pub old : Shown
  pub new : Shown
  pub change_type : String

abbrev pub child : String → String → String
child base name = append base (append "." name)

-- The fields of two structs of one type, in their order.
unfoldable pub diff_structs : Slices → String → Struct → Struct → List DiffResult
diff_structs n base ((name, f) ∷ s) ((other, g) ∷ t) =
    let rest = diff_structs n base s t in
    if not (deep_equal f g && not (nil_differs n (child base name) f))
    then (if is_zero_value f && is_zero_value g
        then rest
        else (record {
          path = child base name;
          old = a_field f;
          new = a_field g;
          change_type = "modified";
        })
          ∷ rest)
    else rest
diff_structs n base s t = []

abbrev of_interface : Slices → String → Option Interface → Interface → List DiffResult
of_interface n path none new =
    (record { path = path; old = nothing; new = an_interface new; change_type = "added" }) ∷ []
of_interface n path (some old) new =
    diff_structs n path (interface_struct old) (interface_struct new)

unfoldable pub diff_pending : Slices → Map Interface → Map Interface → List DiffResult
diff_pending n committed [] = []
diff_pending n committed ((name, i) ∷ m) =
    of_interface n (child "interfaces" name) (lookup name committed) i ++ diff_pending n committed m

unfoldable pub diff_removed : Map Interface → Map Interface → List DiffResult
diff_removed pending [] = []
diff_removed pending ((name, i) ∷ m) =
    let rest = diff_removed pending m in
    if not (has name pending)
    then (record {
      path = child "interfaces" name;
      old = an_interface i;
      new = nothing;
      change_type = "removed";
    })
      ∷ rest
    else rest

unfoldable pub diff_interfaces : Slices → InterfacesConfig → InterfacesConfig → List DiffResult
diff_interfaces n committed pending =
    diff_pending n (entries committed.interfaces) (entries pending.interfaces)
    ++ diff_removed (entries pending.interfaces) (entries committed.interfaces)

-- `reflect.DeepEqual` on the slices of interfaces, and on the maps and pointers of the other structs.
pub record DeepEqual : Type 0 where
  pub slices : Slices
  pub interfaces_equal : Option (Map Interface) → Option (Map Interface) → Bool
  pub routes_equal : Option (Map Route) → Option (Map Route) → Bool
  pub plugins_equal : Option (Map PluginState) → Option (Map PluginState) → Bool
  pub observer_equal : Option ObserverConfig → Option ObserverConfig → Bool
  pub logging_equal : Option LoggingConfig → Option LoggingConfig → Bool

-- One field of such a struct in two values: its name, and what the loop asks of it.
pub record Part : Type 0 where
  pub name : String
  pub equal : Bool
  pub both_zero : Bool

unfoldable pub diff_parts : String → List Part → List DiffResult
diff_parts base [] = []
diff_parts base (part ∷ parts) =
    let rest = diff_parts base parts in
    if not part.equal
    then (if part.both_zero
        then rest
        else (record {
          path = child base part.name;
          old = another_value;
          new = another_value;
          change_type = "modified";
        })
          ∷ rest)
    else rest

text_part : String → String → Part
text_part a b = record { name = "version"; equal = a == b; both_zero = a == "" && b == "" }

map_part {ℓ} : {A : Type ℓ} → String → Bool → Option (Map A) → Option (Map A) → Part
map_part name equal a b = record {
  name = name;
  equal = equal;
  both_zero = is_empty (entries a) && is_empty (entries b);
}

pointer_part {ℓ} : {A : Type ℓ} → String → Bool → Option A → Option A → Part
pointer_part name equal a b = record {
  name = name;
  equal = equal;
  both_zero = not (is_some a) && not (is_some b);
}

module _ (deep : DeepEqual) where
  -- `Interface` of the zero `Value`, and `NumField` of a map, panic. Two values of different types
  -- are never compared: a type keeps the type of its configuration.
  generic : String → Option Config → Option Config → Outcome (List DiffResult)
  unfolding text_part map_part pointer_part
  generic base (some (interfaces a)) (some (interfaces b)) = ok (
      diff_parts base (
        map_part "interfaces" (deep.interfaces_equal a.interfaces b.interfaces) a.interfaces
          b.interfaces
        ∷ text_part a.version b.version
        ∷ []))
  generic base (some (routes a)) (some (routes b)) = ok (
      diff_parts base (
        map_part "routes" (deep.routes_equal a.routes b.routes) a.routes b.routes
        ∷ text_part a.version b.version
        ∷ []))
  generic base (some (jack_config a)) (some (jack_config b)) = ok (
      diff_parts base (
        map_part "plugins" (deep.plugins_equal a.plugins b.plugins) a.plugins b.plugins
        ∷ pointer_part "observer" (deep.observer_equal a.observer b.observer) a.observer b.observer
        ∷ pointer_part "logging" (deep.logging_equal a.logging b.logging) a.logging b.logging
        ∷ text_part a.version b.version
        ∷ []))
  generic base a b = panic "reflect: call of a method on a value of another kind"

  typed : Option InterfacesConfig → Option InterfacesConfig → Outcome (List DiffResult)
  typed (some a) (some b) = ok (diff_interfaces deep.slices a b)
  typed a b = err "invalid InterfacesConfig types"

  unfoldable pub diff_configs : String → Option Config → Option Config → Outcome (List DiffResult)
  unfolding generic typed
  diff_configs type committed pending =
      if type == "interfaces"
      then typed (as_interfaces committed) (as_interfaces pending)
      else generic type committed pending

  unfoldable pub diff_type : String → State → Outcome (List DiffResult)
  diff_type type s = do
    committed ← get_committed type s
    current ← get_current type s
    diff_configs type (load s committed) (load s current)

  unfoldable pub diff_types : List String → State → Outcome (List DiffResult)
  diff_types [] s = ok []
  diff_types (type ∷ types) s = do
    diffs ← diff_type type s
    more ← diff_types types s
    ok (diffs ++ more)

  -- The answer holds the differences; the text that they are formatted into is left out.
  unfoldable pub handle_diff : State → Outcome (List DiffResult)
  handle_diff s = if not (has_pending s) then ok [] else diff_types (get_pending_types s) s
