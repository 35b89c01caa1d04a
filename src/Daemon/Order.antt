-- ===== src/Daemon/Order.antt =====
-- `orderPluginsByDependencies` of daemon/server.go: the enabled plugins, each after the plugins that
-- it depends on. `load` tells which dependencies the metadata of a plugin names, and `none` where
-- the plugin cannot be loaded: the plugin's process answers that.
pub mod Complete
pub mod Sorted
use jack.Base.{
  ℕ, zero, suc, String, Bool, true, false, Option, none, some, List, [], ◌∷◌, ◌++◌, if◌then◌else◌,
}
use jack.Base.Lists.{mem, length}
use jack.Base.Maps.{Map}
use jack.Types.Network.{PluginState}

-- The names whose state says that they are enabled, in the order of the loop.
unfoldable pub enabled_plugins : Map PluginState → List String
enabled_plugins [] = []
enabled_plugins ((name, state) ∷ m) =
    let rest = enabled_plugins m in if state.enabled then name ∷ rest else rest

module _ (deps : String → List String) (enabled : List String) where
  -- The loop over the dependencies; the state is the list sorted so far.
  unfoldable pub visit_all :
      (String → List String → List String) → List String → List String → List String
  visit_all visit_one [] sorted = sorted
  visit_all visit_one (dep ∷ more) sorted =
      visit_all visit_one more (if mem dep enabled then visit_one dep sorted else sorted)

  -- `temp` holds the names whose visits are under way, which the code marks and unmarks in a map.
  -- A name is marked visited where it is appended to `sorted`, so `visited` is membership in it.
  -- The fuel bounds how deep the visits nest.
  unfoldable pub visit : ℕ → List String → String → List String → List String
  unfolding visit_all
  visit zero temp name sorted = sorted
  visit (suc fuel) temp name sorted =
      let after = visit_all (visit fuel (name ∷ temp)) (deps name) sorted in
      if mem name temp then sorted else if mem name sorted then sorted else after ++ name ∷ []

  unfoldable pub visit_enabled : ℕ → List String → List String → List String
  visit_enabled fuel [] sorted = sorted
  visit_enabled fuel (name ∷ more) sorted =
      visit_enabled fuel more (if mem name sorted then sorted else visit fuel [] name sorted)

abbrev pub dependencies : (String → Option (List String)) → String → List String
dependencies load name = elim (load name) [ none ↦ [] | some l ↦ l ]

-- Nested visits are of different enabled plugins, so their number is fuel enough.
unfoldable pub order_plugins_by_dependencies :
    (String → Option (List String)) → Map PluginState → List String
order_plugins_by_dependencies load plugins =
    let enabled = enabled_plugins plugins in
    visit_enabled (dependencies load) enabled (length enabled) enabled []
