-- ===== src/Tests/Plugins.antt =====
-- daemon/registry.go and the plugin order of daemon/server.go at a few plugins.
use jack.Base.{
  ℕ, ◌<◌, ◌≡◌, refl, String, ◌==◌, ◌∷◌, [], List, true, false, Bool, not, ◌&&◌, Option, some, none,
  ◌↔◌, if◌then◌else◌, arith, eq_iff, inl, inr, Bool-cases,
}
use jack.Base.Maps.{Map, Distinct, lookup}
use jack.Base.Lists.{mem, Unique}
use jack.Base.Outcome.{ok, err}
use jack.Types.Network.{PluginState}
use jack.Daemon.Plugin.{Plugin}
use jack.Daemon.Registry.{
  PluginRegistry, new_plugin_registry, register, unregister, get, get_path_prefix, is_registered,
  get_namespace_for_plugin, get_plugin_name_for_namespace,
}
use jack.Daemon.Registry.Laws.{IsConsistent, IsConsistent-new, register-IsConsistent}
use jack.Daemon.Registry.Lookup.{register_lem, name_iff_namespace, path_prefix_survives}
use jack.Daemon.Order.{
  order_plugins_by_dependencies, visit_enabled, visit, enabled_plugins, dependencies,
}
use jack.Daemon.Order.Complete.{order_complete, enabled_in}
use jack.Daemon.Order.Sorted.{order_sorted}

abbrev pub plugin_with : String → Plugin
plugin_with prefix = record {
  client = 0;
  metadata = record {
    namespace = "monitoring";
    version = "1.0";
    description = "";
    category = "";
    config_path = "";
    default_config = none;
    dependencies = [];
    path_prefix = prefix;
  };
  provided_services = [];
  required_services = [];
}

abbrev monitoring : Plugin
monitoring = plugin_with "metrics"

abbrev bare : Plugin
bare = plugin_with ""

abbrev registered : PluginRegistry
registered = (register monitoring "mon" new_plugin_registry).1

registered-IsConsistent : IsConsistent registered
registered-IsConsistent =
    register-IsConsistent monitoring "mon" new_plugin_registry IsConsistent-new

register_lem_example :
    ((register monitoring "mon" new_plugin_registry).0 ≡ (
      if is_registered "monitoring" new_plugin_registry
      then err "plugin namespace already registered"
      else ok tt))
    × (get "monitoring" registered ≡ (
        if not (is_registered "monitoring" new_plugin_registry) && "monitoring" == "monitoring"
        then some monitoring
        else get "monitoring" new_plugin_registry))
    × (get_namespace_for_plugin "monitoring" registered ≡ (
        if not (is_registered "monitoring" new_plugin_registry) && "mon" == "monitoring"
        then some "monitoring"
        else get_namespace_for_plugin "monitoring" new_plugin_registry))
    × (get_path_prefix "monitoring" registered ≡ (
        if not (is_registered "monitoring" new_plugin_registry)
          && ("monitoring" == "monitoring" && not (monitoring.metadata.path_prefix == ""))
        then monitoring.metadata.path_prefix
        else get_path_prefix "monitoring" new_plugin_registry))
    × (is_registered "monitoring" new_plugin_registry ≡ true → registered ≡ new_plugin_registry)
register_lem_example = register_lem monitoring "mon" "monitoring" new_plugin_registry

name_iff_namespace_example :
    (get_plugin_name_for_namespace "monitoring" registered ≡ some "mon")
    ↔ (get_namespace_for_plugin "mon" registered ≡ some "monitoring")
name_iff_namespace_example =
    name_iff_namespace "monitoring" "mon" registered registered-IsConsistent

path_prefix_survives_example :
    get_path_prefix "monitoring" (register bare "other" (unregister "monitoring" registered)).1
    ≡ "metrics"
unfolding is_registered lookup
path_prefix_survives_example =
    path_prefix_survives monitoring bare "mon" "other" new_plugin_registry refl refl refl refl

-- `vpn` needs `firewall`, `led` is disabled
abbrev on : Bool → PluginState
on b = record { version = ""; enabled = b }

abbrev configured : Map PluginState
configured = ("vpn", on true) ∷ ("led", on false) ∷ ("firewall", on true) ∷ []

abbrev needs : String → Option (List String)
needs name = if name == "vpn" then some ("firewall" ∷ []) else none

configured-Distinct : Distinct configured
unfolding lookup
configured-Distinct = (refl, (refl, (refl, tt)))

order_configured : order_plugins_by_dependencies needs configured ≡ "firewall" ∷ "vpn" ∷ []
unfolding order_plugins_by_dependencies visit_enabled enabled_plugins mem visit
order_configured = refl

order_complete_example :
    Unique (order_plugins_by_dependencies needs configured)
    × (mem "vpn" (order_plugins_by_dependencies needs configured)
        ≡ enabled_in (lookup "vpn" configured))
order_complete_example = order_complete needs configured "vpn" configured-Distinct

abbrev rank : String → ℕ
rank name = if name == "vpn" then 1 else 0

acyclic :
    (x d : String)
    → mem x (enabled_plugins configured) ≡ true
    → mem d (dependencies needs x) ≡ true
    → mem d (enabled_plugins configured) ≡ true
    → rank d < rank x
unfolding mem enabled_plugins
acyclic x d on_x needed on_d = elim (Bool-cases (x == "vpn")) [
  | inl e ↦
      let at_firewall : "firewall" ≡ d = ground (arith, e, eq_iff "firewall" d) in
      rw (e, ← at_firewall) (omega arith)
  | inr ne ↦ ground (arith, ne)
]

order_sorted_example : mem "firewall" ("firewall" ∷ []) ≡ true
unfolding mem enabled_plugins
order_sorted_example =
    order_sorted needs configured rank ("firewall" ∷ []) [] "vpn" "firewall" acyclic
      order_configured refl refl
