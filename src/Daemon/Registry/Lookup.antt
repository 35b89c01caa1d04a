-- ===== src/Daemon/Registry/Lookup.antt =====
-- What the lookups of the plugin registry find, after it is changed and in both directions.
use jack.Base.{
  String, ◌==◌, ◌≡◌, ◌↔◌, refl, not, ◌&&◌, true, false, some, [], ◌∷◌, inl, inr, arith, eq_iff,
  if◌then◌else◌, Bool-cases,
}
use jack.Base.Maps.{Map, lookup, insert, has, Distinct, lookup-insert, lookup-delete}
use jack.Base.Outcome.{ok, err}
use jack.Daemon.Plugin.{Plugin}
use jack.Daemon.Registry.{
  PluginRegistry, register, unregister, get, find_value, get_path_prefix, get_namespace_for_plugin,
  get_plugin_name_for_namespace, is_registered,
}
use jack.Daemon.Registry.Laws.{IsConsistent, DistinctValues}

-- `Register` succeeds exactly when the namespace is free. Then the namespace has the plugin, the
-- name has the namespace, the namespace has the path prefix of the plugin if that is not empty, and
-- every other namespace and name is as before; otherwise the registry is as before.
pub register_lem :
    (p : Plugin) (name other : String) (r : PluginRegistry)
    → ((register p name r).0 ≡ (
        if is_registered p.metadata.namespace r
        then err "plugin namespace already registered"
        else ok tt))
      × (get other (register p name r).1 ≡ (
          if not (is_registered p.metadata.namespace r) && p.metadata.namespace == other
          then some p
          else get other r))
      × (get_namespace_for_plugin other (register p name r).1 ≡ (
          if not (is_registered p.metadata.namespace r) && name == other
          then some p.metadata.namespace
          else get_namespace_for_plugin other r))
      × (get_path_prefix other (register p name r).1 ≡ (
          if not (is_registered p.metadata.namespace r)
            && (p.metadata.namespace == other && not (p.metadata.path_prefix == ""))
          then p.metadata.path_prefix
          else get_path_prefix other r))
      × (is_registered p.metadata.namespace r ≡ true → (register p name r).1 ≡ r)
unfolding register get get_namespace_for_plugin get_path_prefix is_registered
register_lem p name other r = elim (Bool-cases (has p.metadata.namespace r.plugins)) [
  | inl taken ↦ rw taken (refl, refl, refl, refl, λ e. refl)
  | inr free ↦
      let ns = p.metadata.namespace in
      let stored = lookup-insert ns other p.metadata.path_prefix r.path_prefixes in
      rw free (refl, rw lookup-insert refl, rw lookup-insert refl, ground (arith, stored), λ e. cc)
]

lookup-find_value :
    (ns name : String) (m : Map String)
    → Distinct m
    → find_value ns m ≡ some name
    → lookup name m ≡ some ns
unfolding find_value lookup
lookup-find_value ns name [] d h = cc
lookup-find_value ns name ((j, w) ∷ m) d h =
    ground (arith, eq_iff w ns, eq_iff j name, lookup-find_value ns name m d.1, d.0)

find_value-lookup :
    (ns name : String) (m : Map String)
    → DistinctValues m
    → lookup name m ≡ some ns
    → find_value ns m ≡ some name
unfolding find_value lookup
find_value-lookup ns name [] d h = cc
find_value-lookup ns name ((j, w) ∷ m) d h =
    ground (arith, eq_iff w ns, eq_iff j name, find_value-lookup ns name m d.1, d.0)

-- In a consistent registry the two directions of the name table agree, whatever the order in which
-- a loop meets the names.
pub name_iff_namespace :
    (ns name : String) (r : PluginRegistry)
    → IsConsistent r
    → (get_plugin_name_for_namespace ns r ≡ some name) ↔ (get_namespace_for_plugin name r ≡ some ns)
unfolding get_plugin_name_for_namespace get_namespace_for_plugin
name_iff_namespace ns name r c = (
  lookup-find_value ns name r.name_to_ns c.distinct_names,
  find_value-lookup ns name r.name_to_ns c.distinct_namespaces,
)

-- The path prefix of an unregistered plugin stays: a plugin without a prefix that is registered
-- afterwards under the same namespace has it.
pub path_prefix_survives :
    (p q : Plugin) (name name' : String) (r : PluginRegistry)
    → is_registered p.metadata.namespace r ≡ false
    → p.metadata.path_prefix == "" ≡ false
    → q.metadata.namespace ≡ p.metadata.namespace
    → q.metadata.path_prefix ≡ ""
    → get_path_prefix q.metadata.namespace
        (register q name' (unregister p.metadata.namespace (register p name r).1)).1
      ≡ p.metadata.path_prefix
unfolding register unregister get_path_prefix is_registered
path_prefix_survives p q name name' r free prefixed same bare =
    let ns = p.metadata.namespace in
    ground (
      arith,
      lookup-insert ns ns p r.plugins,
      lookup-delete ns ns (insert ns p r.plugins),
      lookup-insert ns ns p.metadata.path_prefix r.path_prefixes,
      eq_iff ns ns,
      eq_iff q.metadata.path_prefix "",
    )
