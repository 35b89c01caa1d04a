-- ===== src/Daemon/Diff/Empty.antt =====
-- When a difference of interface configurations is empty.
use jack.Base.{
  String, ◌==◌, ◌≡◌, ◌↔◌, true, false, not, ◌&&◌, Option, none, some, List, [], ◌∷◌, ◌++◌, refl,
  sym, ap, ◌∙◌, inl, inr, arith, eq_iff, eq_refl, is_some, Bool-cases, if◌then◌else◌,
}
use jack.Base.Maps.{Map, lookup, has, entries, Distinct, AllEntries, lookup-AllEntries}
use jack.Types.Network.{Interface, InterfacesConfig}
use jack.Daemon.Navigator.{Struct, Field, strings, peers, ipv6, interface_struct, struct_interface}
use jack.Daemon.Navigator.Laws.{struct_interface-interface_struct}
use jack.Daemon.Navigator.Shape.{SameShape}
use jack.Daemon.Diff.{
  deep_equal, is_zero_value, nil_differs, Slices, diff_structs, of_interface, diff_pending,
  diff_removed, diff_interfaces, child,
}
use jack.Daemon.Diff.Equal.{deep_equal-eq, deep_equal_refl, zero-eq}

append-eq-nil : {A : Type 0} (xs ys : List A) → xs ++ ys ≡ [] → (xs ≡ []) × (ys ≡ [])
append-eq-nil [] ys e = (refl, e)
append-eq-nil (x ∷ xs) ys e = cc

-- Without a difference further inside, fields that differ in nil only are zero values.
nil_differs-zero :
    (n : Slices) (path : String) (f : Field)
    → n.inner path ≡ false
    → nil_differs n path f ≡ true
    → is_zero_value f ≡ true
unfolding nil_differs is_zero_value
nil_differs-zero n path (strings l) agree e = ground (arith, e)
nil_differs-zero n path (peers []) agree e = refl
nil_differs-zero n path (peers (p ∷ ps)) agree e = ground (arith, e, agree)
nil_differs-zero n path (ipv6 (some c)) agree e = ground (arith, e, agree)
nil_differs-zero n path _ agree e = cc

-- Structs of one type have no difference exactly if they are equal.
diff_structs-eq :
    (n : Slices)
    → ((path : String) → n.inner path ≡ false)
    → (base : String) (s t : Struct) → SameShape s t
    → diff_structs n base s t ≡ []
    → s ≡ t
unfolding diff_structs
diff_structs-eq n agree base [] [] shape e = refl
diff_structs-eq n agree base ((k, f) ∷ s) ((j, g) ∷ t) (same, kind, shape) e =
    elim (Bool-cases (deep_equal f g && not (nil_differs n (child base k) f))) [
      | inl equal ↦
          let rest = diff_structs-eq n agree base s t shape (ground (arith, e, equal)) in
          let there = deep_equal-eq f g (ground (arith, equal)) in cc
      | inr differ ↦ elim (Bool-cases (is_zero_value f && is_zero_value g)) [
        | inl zero ↦
            let rest = diff_structs-eq n agree base s t shape (ground (arith, e, differ, zero)) in
            let there = zero-eq f g kind (ground (arith, zero)) (ground (arith, zero)) in cc
        | inr set ↦ absurd (ground (arith, e, differ, set))
      ]
    ]
diff_structs-eq n agree base [] (x ∷ t) shape e = absurd shape
diff_structs-eq n agree base (x ∷ s) [] shape e = absurd shape

diff_structs_refl :
    (n : Slices)
    → ((path : String) → n.inner path ≡ false)
    → (base : String) (s : Struct) → diff_structs n base s s ≡ []
unfolding diff_structs
diff_structs_refl n agree base [] = refl
diff_structs_refl n agree base ((k, f) ∷ s) = ground (
  arith,
  deep_equal_refl f,
  nil_differs-zero n (child base k) f (agree (child base k)),
  diff_structs_refl n agree base s,
)

interface-SameShape : (i j : Interface) → SameShape (interface_struct i) (interface_struct j)
unfolding interface_struct
interface-SameShape i j = (
  refl,
  tt,
  (
    refl,
    tt,
    (
      refl,
      tt,
      (
        refl,
        tt,
        (
          refl,
          tt,
          (
            refl,
            tt,
            (
              refl,
              tt,
              (
                refl,
                tt,
                (
                  refl,
                  tt,
                  (
                    refl,
                    tt,
                    (
                      refl,
                      tt,
                      (
                        refl,
                        tt,
                        (
                          refl,
                          tt,
                          (
                            refl,
                            tt,
                            (
                              refl,
                              tt,
                              (
                                refl,
                                tt,
                                (refl, tt, (refl, tt, (refl, tt, (refl, tt, (refl, tt, tt))))),
                              ),
                            ),
                          ),
                        ),
                      ),
                    ),
                  ),
                ),
              ),
            ),
          ),
        ),
      ),
    ),
  ),
)

interface_struct-eq : (i j : Interface) → interface_struct i ≡ interface_struct j → i ≡ j
interface_struct-eq i j e =
    sym (struct_interface-interface_struct i)
    ∙ ap struct_interface e
    ∙ struct_interface-interface_struct j

-- An interface shows no difference exactly if it is there and the same.
of_interface-eq :
    (n : Slices)
    → ((path : String) → n.inner path ≡ false)
    → (path : String) (old : Option Interface) (new : Interface)
    → of_interface n path old new ≡ [] ↔ (old ≡ some new)
of_interface-eq n agree path none new = (λ e. cc, λ e. cc)
of_interface-eq n agree path (some old) new = (
  λ e. ap some (
      interface_struct-eq old new (
        diff_structs-eq n agree path (interface_struct old) (interface_struct new)
          (interface-SameShape old new) e)),
  λ e. let same : old ≡ new = cc in rw same (diff_structs_refl n agree path (interface_struct new)),
)

diff_pending_lem :
    (n : Slices)
    → ((path : String) → n.inner path ≡ false)
    → (committed m : Map Interface)
    → diff_pending n committed m ≡ [] ↔ AllEntries (λ name i. lookup name committed ≡ some i) m
unfolding diff_pending
diff_pending_lem n agree committed [] = (λ e. tt, λ e. refl)
diff_pending_lem n agree committed ((name, i) ∷ m) =
    let here = of_interface-eq n agree (child "interfaces" name) (lookup name committed) i in
    let rest = diff_pending_lem n agree committed m in
    (
      λ e.
          let (first, more) =
            append-eq-nil (of_interface n (child "interfaces" name) (lookup name committed) i) _
              e in
          (here.0 first, rest.0 more),
      λ (there, more). rw (here.1 there) (rest.1 more),
    )

diff_removed_lem :
    (pending m : Map Interface)
    → diff_removed pending m ≡ [] ↔ AllEntries (λ name i. has name pending ≡ true) m
unfolding diff_removed
diff_removed_lem pending [] = (λ e. tt, λ e. refl)
diff_removed_lem pending ((name, i) ∷ m) =
    let rest = diff_removed_lem pending m in
    elim (Bool-cases (has name pending)) [
      | inl there ↦ rw there (λ e. (refl, rest.0 e), λ a. rest.1 a.1)
      | inr gone ↦ rw gone (λ e. absurd (ground (arith, e)), λ a. absurd (ground (arith, a.0)))
    ]

AllEntries-map :
    {P Q : String → Interface → Type 0} (m : Map Interface)
    → ((k : String) (i : Interface) → P k i → Q k i)
    → AllEntries P m
    → AllEntries Q m
AllEntries-map [] f all = tt
AllEntries-map ((k, i) ∷ m) f (p, all) = (f k i p, AllEntries-map m f all)

lookup_all : (m : Map Interface) → Distinct m → AllEntries (λ k i. lookup k m ≡ some i) m
unfolding lookup
lookup_all [] d = tt
lookup_all ((j, w) ∷ m) (apart, d) =
    (rw eq_refl refl, AllEntries-map m (λ k i found. further k i found) (lookup_all m d))
  where
    further :
        (k : String) (i : Interface)
        → lookup k m ≡ some i
        → (if j == k then some w else lookup k m) ≡ some i
    further k i found = elim (Bool-cases (j == k)) [
      | inl e ↦
          let there : lookup j m ≡ some i = rw ((eq_iff j k).0 e) found in
          absurd (ground (arith, apart, there))
      | inr ne ↦ rw ne found
    ]

has_all : (m : Map Interface) → AllEntries (λ k i. has k m ≡ true) m
unfolding lookup
has_all [] = tt
has_all ((j, w) ∷ m) =
    (rw eq_refl refl, AllEntries-map m (λ k i there. further k there) (has_all m))
  where
    further : (k : String) → has k m ≡ true → is_some (if j == k then some w else lookup k m) ≡ true
    further k there = ground (arith, there)

-- The difference of two interface configurations is empty exactly if they have the same interfaces
-- under the same names, whether slices of the interfaces without elements are nil or empty. The
-- pending one is a map, which has no name twice, and no slice inside a peer or an IPv6 configuration
-- is nil in one configuration and empty in the other.
pub diff_interfaces-empty :
    (n : Slices) (committed pending : InterfacesConfig)
    → ((path : String) → n.inner path ≡ false)
    → Distinct (entries pending.interfaces)
    → diff_interfaces n committed pending ≡ [] ↔ (
        (name : String)
        → lookup name (entries committed.interfaces) ≡ lookup name (entries pending.interfaces))
unfolding diff_interfaces
diff_interfaces-empty n committed pending agree distinct = (
  λ e name.
      let (kept, removed) = append-eq-nil (diff_pending n c p) (diff_removed p c) e in
      same name ((diff_pending_lem n agree c p).0 kept) ((diff_removed_lem p c).0 removed)
        (lookup name p) refl,
  λ same.
      let kept =
        (diff_pending_lem n agree c p).1
          (AllEntries-map p (λ k i found. same k ∙ found) (lookup_all p distinct)) in
      let removed =
        (diff_removed_lem p c).1
          (AllEntries-map c (λ k i there. ap is_some (sym (same k)) ∙ there) (has_all c)) in
      rw (kept, removed) refl,
)
  where
    c : Map Interface
    c = entries committed.interfaces

    p : Map Interface
    p = entries pending.interfaces

    missing :
        (name : String) (found : Option Interface)
        → AllEntries (λ k i. has k p ≡ true) c
        → lookup name p ≡ none
        → lookup name c ≡ found
        → found ≡ none
    missing name none all gone e = refl
    missing name (some i) all gone e =
        absurd (ground (arith, lookup-AllEntries (λ k i. has k p ≡ true) name c all e, gone))

    same :
        (name : String)
        → AllEntries (λ k i. lookup k c ≡ some i) p
        → AllEntries (λ k i. has k p ≡ true) c
        → (found : Option Interface) → lookup name p ≡ found
        → lookup name c ≡ lookup name p
    same name kept removed none e = missing name (lookup name c) removed e refl ∙ sym e
    same name kept removed (some i) e =
        lookup-AllEntries (λ k i. lookup k c ≡ some i) name p kept e ∙ sym e
