-- ===== src/Daemon/Registry/Laws.antt =====
-- The invariant of the plugin registry, and that registering and unregistering keep it.
use jack.Base.{
  String, ◌==◌, ◌≡◌, refl, Bool, true, false, none, [], ◌∷◌, inl, inr, arith, eq_iff, eq_refl,
  is_some, Bool-cases,
}
use jack.Base.Maps.{
  Map, lookup, insert, delete, has, Distinct, Distinct-insert, AllEntries, lookup-insert,
  lookup-delete,
}
use jack.Daemon.Plugin.{Plugin}
use jack.Daemon.Registry.{
  PluginRegistry, new_plugin_registry, register, unregister, delete_value, find_value,
}

-- no two names have the namespace
abbrev has_value : String → Map String → Bool
has_value ns m = is_some (find_value ns m)

abbrev pub DistinctValues : Map String → Type 0
DistinctValues [] = Unit
DistinctValues ((name, ns) ∷ m) = (has_value ns m ≡ false) × DistinctValues m

abbrev pub Registered : Map Plugin → String → String → Type 0
Registered plugins name ns = has ns plugins ≡ true

-- Names and namespaces correspond one to one, and every namespace with a name has a plugin.
pub record IsConsistent (r : PluginRegistry) : Type 0 where
  pub distinct_names : Distinct r.name_to_ns
  pub distinct_namespaces : DistinctValues r.name_to_ns
  pub registered : AllEntries (Registered r.plugins) r.name_to_ns

-- a namespace without a plugin has no name
unnamed :
    (plugins : Map Plugin) (ns : String) (m : Map String)
    → AllEntries (Registered plugins) m
    → has ns plugins ≡ false
    → find_value ns m ≡ none
unfolding find_value
unnamed plugins ns [] all h = refl
unnamed plugins ns ((name, v) ∷ m) all h =
    ground (arith, eq_iff v ns, unnamed plugins ns m all.1 h, all.0)

find_value-insert_absent :
    (k v ns : String) (m : Map String)
    → v == ns ≡ false
    → find_value ns m ≡ none
    → find_value ns (insert k v m) ≡ none
unfolding find_value insert
find_value-insert_absent k v ns [] ne h = ground arith
find_value-insert_absent k v ns ((j, w) ∷ m) ne h =
    ground (arith, find_value-insert_absent k v ns m ne)

DistinctValues-insert :
    (k v : String) (m : Map String)
    → DistinctValues m
    → find_value v m ≡ none
    → DistinctValues (insert k v m)
unfolding find_value insert
DistinctValues-insert k v [] d h = (refl, tt)
DistinctValues-insert k v ((j, w) ∷ m) d h = elim (Bool-cases (j == k)) [
  | inl e ↦ rw e (ground arith, d.1)
  | inr ne ↦ rw ne (
    ground (arith, find_value-insert_absent k v w m, eq_iff v w, eq_iff w v, d.0),
    DistinctValues-insert k v m d.1 (ground arith),
  )
]

Registered-insert :
    (ns : String) (p : Plugin) (plugins : Map Plugin) (m : Map String)
    → AllEntries (Registered plugins) m
    → AllEntries (Registered (insert ns p plugins)) m
Registered-insert ns p plugins [] all = tt
Registered-insert ns p plugins ((name, v) ∷ m) all =
    (rw lookup-insert (ground (arith, all.0)), Registered-insert ns p plugins m all.1)

AllEntries-insert :
    (P : String → String → Type 0) (k v : String) (m : Map String)
    → AllEntries P m
    → P k v
    → AllEntries P (insert k v m)
unfolding insert
AllEntries-insert P k v [] all h = (h, tt)
AllEntries-insert P k v ((j, w) ∷ m) all h = elim (Bool-cases (j == k)) [
  | inl e ↦ rw e (h, all.1)
  | inr ne ↦ rw ne (all.0, AllEntries-insert P k v m all.1 h)
]

lookup-delete_value_absent :
    (k ns : String) (m : Map String) → has k m ≡ false → has k (delete_value ns m) ≡ false
unfolding lookup delete_value
lookup-delete_value_absent k ns [] h = refl
lookup-delete_value_absent k ns ((j, w) ∷ m) h = ground (arith, lookup-delete_value_absent k ns m)

find_value-delete_value_absent :
    (v ns : String) (m : Map String)
    → has_value v m ≡ false
    → has_value v (delete_value ns m) ≡ false
unfolding find_value delete_value
find_value-delete_value_absent v ns [] h = refl
find_value-delete_value_absent v ns ((j, w) ∷ m) h =
    ground (arith, find_value-delete_value_absent v ns m)

Distinct-delete_value : (ns : String) (m : Map String) → Distinct m → Distinct (delete_value ns m)
unfolding delete_value
Distinct-delete_value ns [] d = d
Distinct-delete_value ns ((j, w) ∷ m) d = elim (Bool-cases (w == ns)) [
  | inl e ↦ rw e d.1
  | inr ne ↦ rw ne (lookup-delete_value_absent j ns m d.0, Distinct-delete_value ns m d.1)
]

DistinctValues-delete_value :
    (ns : String) (m : Map String) → DistinctValues m → DistinctValues (delete_value ns m)
unfolding delete_value
DistinctValues-delete_value ns [] d = d
DistinctValues-delete_value ns ((j, w) ∷ m) d = elim (Bool-cases (w == ns)) [
  | inl e ↦ rw e d.1
  | inr ne ↦ rw ne (find_value-delete_value_absent w ns m d.0, DistinctValues-delete_value ns m d.1)
]

module _ (plugins : Map Plugin) (ns : String) where
  kept : (v : String) → has v plugins ≡ true → v == ns ≡ false → has v (delete ns plugins) ≡ true
  kept v h ne = rw lookup-delete (ground (arith, eq_iff v ns, eq_iff ns v))

  Registered-delete_absent :
      (m : Map String)
      → AllEntries (Registered plugins) m
      → has_value ns m ≡ false
      → AllEntries (Registered (delete ns plugins)) m
  unfolding find_value
  Registered-delete_absent [] all h = tt
  Registered-delete_absent ((j, w) ∷ m) all h =
      (kept w all.0 (ground arith), Registered-delete_absent m all.1 (ground arith))

  Registered-delete :
      (m : Map String)
      → AllEntries (Registered plugins) m
      → DistinctValues m
      → AllEntries (Registered (delete ns plugins)) (delete_value ns m)
  unfolding delete_value
  Registered-delete [] all d = tt
  Registered-delete ((j, w) ∷ m) all d = elim (Bool-cases (w == ns)) [
    | inl e ↦
        let same : w ≡ ns = (eq_iff w ns).0 e in
        rw e (Registered-delete_absent m all.1 (rw same at d.0))
    | inr ne ↦ rw ne (kept w all.0 ne, Registered-delete m all.1 d.1)
  ]

pub IsConsistent-new : IsConsistent new_plugin_registry
IsConsistent-new = record { distinct_names = tt; distinct_namespaces = tt; registered = tt }

-- `Register`, whether it succeeds or not, keeps the registry consistent.
pub register-IsConsistent :
    (p : Plugin) (name : String) (r : PluginRegistry)
    → IsConsistent r
    → IsConsistent (register p name r).1
unfolding register
register-IsConsistent p name r c = elim (Bool-cases (has p.metadata.namespace r.plugins)) [
  | inl taken ↦ rw taken c
  | inr free ↦
      let ns = p.metadata.namespace in
      rw free (record {
        distinct_names = Distinct-insert name ns r.name_to_ns c.distinct_names;
        distinct_namespaces =
            DistinctValues-insert name ns r.name_to_ns c.distinct_namespaces
              (unnamed r.plugins ns r.name_to_ns c.registered free);
        registered =
            AllEntries-insert (Registered (insert ns p r.plugins)) name ns r.name_to_ns
              (Registered-insert ns p r.plugins r.name_to_ns c.registered)
              (rw (lookup-insert, eq_refl));
      })
]

-- `Unregister` keeps the registry consistent.
pub unregister-IsConsistent :
    (ns : String) (r : PluginRegistry) → IsConsistent r → IsConsistent (unregister ns r)
unfolding unregister
unregister-IsConsistent ns r c = record {
  distinct_names = Distinct-delete_value ns r.name_to_ns c.distinct_names;
  distinct_namespaces = DistinctValues-delete_value ns r.name_to_ns c.distinct_namespaces;
  registered = Registered-delete r.plugins ns r.name_to_ns c.registered c.distinct_namespaces;
}
