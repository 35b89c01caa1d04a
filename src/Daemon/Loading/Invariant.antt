-- ===== src/Daemon/Loading/Invariant.antt =====
-- What loading a plugin keeps, the waves keep.
use jack.Base.{
  ℕ, zero, suc, String, Bool, true, false, not, ◌&&◌, Option, none, some, List, [], ◌∷◌, ltb, eqb,
  if◌then◌else◌,
}
use jack.Base.Lists.{mem, length}
use jack.Daemon.Loading.{
  Loader, Progress, attempt, try_plugin, run_wave, remaining, waves, load_plugins,
}

module _ (loader : Loader) (P : loader.World → Type 0)
    (keeps : (name : String) (w : loader.World) → P w → P (loader.load_plugin name w).1) where
  abbrev pub Holds : Option (Progress loader) → Type 0
  Holds none = Unit
  Holds (some p) = P p.world

  if-keeps :
      (b : Bool) (p q : Progress loader) → P p.world → P q.world → P (if b then p else q).world
  if-keeps true p q g h = g
  if-keeps false p q g h = h

  try_plugin-keeps :
      (name : String) (p : Progress loader) → P p.world → P (try_plugin loader name p).world
  unfolding try_plugin
  try_plugin-keeps name p h = if-keeps (mem name p.loaded) p _ h (
      if-keeps (not (loader.can_load name p.world)) p (attempt loader name p) h
        (keeps name p.world h))

  run_wave-keeps :
      (names : List String) (p : Progress loader) → P p.world → P (run_wave loader names p).world
  unfolding run_wave
  run_wave-keeps [] p h = h
  run_wave-keeps (name ∷ names) p h = run_wave-keeps names _ (try_plugin-keeps name p h)

  if-Holds :
      (b : Bool) (p q : Option (Progress loader)) → Holds p → Holds q → Holds (if b then p else q)
  if-Holds true p q g h = g
  if-Holds false p q g h = h

  waves-keeps :
      (fuel : ℕ) (enabled : List String) (p : Progress loader)
      → P p.world
      → Holds (waves loader fuel enabled p)
  unfolding waves
  waves-keeps zero enabled p h = tt
  waves-keeps (suc fuel) enabled p h =
      let after = run_wave loader enabled (record p { count = 0 }) in
      let kept = run_wave-keeps enabled (record p { count = 0 }) h in
      if-Holds (not (ltb (length p.loaded) (length enabled))) (some p) _ h (
        if-Holds (eqb after.count 0 && ltb 0 (length (remaining loader enabled after))) (some after)
          (waves loader fuel enabled after) kept (waves-keeps fuel enabled after kept))

  pub load_plugins-keeps :
      (enabled : List String) (world : loader.World)
      → P world
      → Holds (load_plugins loader enabled world)
  unfolding load_plugins
  load_plugins-keeps enabled world h = waves-keeps _ enabled _ h
