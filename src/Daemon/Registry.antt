-- ===== src/Daemon/Registry.antt =====
-- daemon/registry.go: the plugins by namespace, and the names and path prefixes that go with them.
pub mod Laws
pub mod Lookup
use jack.Base.{
  String, ◌==◌, ◌≡◌, Bool, not, Option, none, some, List, [], ◌∷◌, is_some, if◌then◌else◌,
}
use jack.Base.Maps.{Map, lookup, insert, delete, has, keys}
use jack.Base.Outcome.{Outcome, ok, err}
use jack.Daemon.Plugin.{Plugin}

pub record PluginRegistry : Type 0 where
  pub plugins : Map Plugin
  pub name_to_ns : Map String
  pub path_prefixes : Map String

abbrev pub new_plugin_registry : PluginRegistry
new_plugin_registry = record { plugins = []; name_to_ns = []; path_prefixes = [] }

unfoldable pub register : Plugin → String → PluginRegistry → Outcome (Unit {0}) × PluginRegistry
register plugin name r =
    let ns = plugin.metadata.namespace in
    let prefix = plugin.metadata.path_prefix in
    if has ns r.plugins then (err "plugin namespace already registered", r) else (
      ok tt,
      record {
        plugins = insert ns plugin r.plugins;
        name_to_ns = insert name ns r.name_to_ns;
        path_prefixes = if prefix == "" then r.path_prefixes else insert ns prefix r.path_prefixes;
      },
    )

unfoldable pub get : String → PluginRegistry → Option Plugin
get ns r = lookup ns r.plugins

unfoldable pub list : PluginRegistry → List String
list r = keys r.plugins

-- The first name of the namespace that the loop meets is deleted.
unfoldable pub delete_value : String → Map String → Map String
delete_value ns [] = []
delete_value ns ((name, v) ∷ m) =
    let rest = delete_value ns m in if v == ns then m else (name, v) ∷ rest

unfoldable pub unregister : String → PluginRegistry → PluginRegistry
unregister ns r = record r {
  plugins = delete ns r.plugins;
  name_to_ns = delete_value ns r.name_to_ns;
}

-- A missing key reads as the empty string.
unfoldable pub get_path_prefix : String → PluginRegistry → String
get_path_prefix ns r = elim (lookup ns r.path_prefixes) [ none ↦ "" | some p ↦ p ]

unfoldable pub get_namespace_for_plugin : String → PluginRegistry → Option String
get_namespace_for_plugin name r = lookup name r.name_to_ns

unfoldable pub find_value : String → Map String → Option String
find_value ns [] = none
find_value ns ((name, v) ∷ m) = if v == ns then some name else find_value ns m

unfoldable pub get_plugin_name_for_namespace : String → PluginRegistry → Option String
get_plugin_name_for_namespace ns r = find_value ns r.name_to_ns

unfoldable pub is_registered : String → PluginRegistry → Bool
is_registered ns r = has ns r.plugins
