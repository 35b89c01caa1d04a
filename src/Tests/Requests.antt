-- ===== src/Tests/Requests.antt =====
-- Sequences of calls of the configuration state.
use jack.Base.{◌≡◌, true, false, List, ◌∷◌, []}
use jack.Base.Maps.{has}
use jack.Types.Value.{bool}
use jack.Daemon.State.{load, new_state}
use jack.Daemon.State.Isolation.{committed, pending, last_applied}
use jack.Daemon.Registry.{new_plugin_registry}
use jack.Daemon.Requests.{Request, load_file, set, commit, revert, applied, serve_all}
use jack.Daemon.Requests.Spec.{perform_all, empty_store}
use jack.Daemon.Requests.Refines.{serve_all-refines}
use jack.Tests.State.{led}
use jack.Tests.Server.{codec}

-- The committed configuration is recorded as applied, then a copy of it is changed.
abbrev session : List Request
session =
    load_file "led" led
    ∷ applied "led"
    ∷ set "led.enabled" (bool true)
    ∷ set "fan.speed" (bool false)
    ∷ commit
    ∷ set "led.enabled" (bool false)
    ∷ revert
    ∷ []

serve_all-refines_example :
    let s = serve_all codec new_plugin_registry session new_state in
    let σ = perform_all codec new_plugin_registry session empty_store in
    (has "led" s.registry ≡ σ.known "led")
    × (load s (committed "led" s) ≡ σ.committed "led")
    × (load s (pending "led" s) ≡ σ.pending "led")
    × (load s (last_applied "led" s) ≡ σ.last_applied "led")
serve_all-refines_example = serve_all-refines codec new_plugin_registry session "led"
