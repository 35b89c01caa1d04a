-- ===== src/Daemon/Loading.antt =====
-- The waves of `loadPlugins` in daemon/server.go. Whether a plugin can be loaded, and what loading
-- it does to the registries, depends on its process; both are behind `Loader`.
pub mod Ends
pub mod Invariant
use jack.Base.{
  ℕ, zero, suc, ◌+◌, String, Bool, true, false, not, ◌&&◌, Option, none, some, List, [], ◌∷◌, ltb,
  eqb, if◌then◌else◌,
}
use jack.Base.Lists.{mem, length}

pub record Loader : Type 1 where
  pub World : Type 0
  -- `canLoadPlugin`
  pub can_load : String → World → Bool
  -- `loadSinglePlugin`; true if it returns no error
  pub load_plugin : String → World → Bool × World

module _ (loader : Loader) where
  -- `loaded` is the set `loadedPlugins`, `count` is `pluginsLoadedThisWave`.
  pub record Progress : Type 0 where
    pub loaded : List String
    pub count : ℕ
    pub world : loader.World

  -- A plugin is marked as loaded even if loading it failed.
  abbrev attempt : String → Progress → Progress
  attempt name p =
      let (succeeds, world) = loader.load_plugin name p.world in
      record {
        loaded = name ∷ p.loaded;
        count = if succeeds then p.count + 1 else p.count;
        world = world;
      }

  unfoldable pub try_plugin : String → Progress → Progress
  try_plugin name p =
      if mem name p.loaded
      then p
      else if not (loader.can_load name p.world)
      then p
      else attempt name p

  unfoldable pub run_wave : List String → Progress → Progress
  run_wave [] p = p
  run_wave (name ∷ names) p = run_wave names (try_plugin name p)

  unfoldable pub remaining : List String → Progress → List String
  remaining [] p = []
  remaining (name ∷ names) p =
      let rest = remaining names p in if mem name p.loaded then rest else name ∷ rest

  -- The outer loop. `none`: the fuel ran out.
  unfoldable pub waves : ℕ → List String → Progress → Option Progress
  waves zero enabled p = none
  waves (suc fuel) enabled p =
      let after = run_wave enabled (record p { count = 0 }) in
      let more = waves fuel enabled after in
      if not (ltb (length p.loaded) (length enabled))
      then some p
      else if eqb after.count 0 && ltb 0 (length (remaining enabled after))
      then some after
      else more

  -- Each wave but the last marks a plugin, so two more than the enabled plugins is fuel enough.
  unfoldable pub load_plugins : List String → loader.World → Option Progress
  load_plugins enabled world =
      waves (suc (suc (length enabled))) enabled (record { loaded = []; count = 0; world = world })
