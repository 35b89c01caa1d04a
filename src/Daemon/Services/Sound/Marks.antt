-- ===== src/Daemon/Services/Sound/Marks.antt =====
-- `MarkServiceReady` in a sound registry.
use mathlib.Core.Bool.{false≢true}
use jack.Base.{
  ◌∙◌, ℕ, String, ◌==◌, ◌≡◌, true, false, ◌&&◌, none, some, arith, eq_iff, eqb, if◌then◌else◌, inl,
  inr, Bool-cases, Option-cases,
}
use jack.Base.Maps.{lookup, insert, has, lookup-insert}
use jack.Base.Outcome.{ok}
use jack.Daemon.Services.{ServiceRegistry, services_of, is_service_ready, mark_service_ready, close}
use jack.Daemon.Services.Sound.{IsSound}

-- the state after a service that was not ready is marked ready, with its channel
abbrev marked : String → ℕ → ServiceRegistry → ServiceRegistry
marked name c r = record r {
  service_ready = insert name true r.service_ready;
  closed = λ d. if eqb d c then true else r.closed d;
}

module _ (name : String) (c : ℕ) (r : ServiceRegistry) where
  ready-marked :
      (k : String)
      → is_service_ready k (marked name c r) ≡ (if name == k then true else is_service_ready k r)
  unfolding is_service_ready
  ready-marked k = rw (lookup-insert, is_service_ready) (ground arith)

  marked-IsSound : IsSound r → lookup name r.ready_channels ≡ some c → IsSound (marked name c r)
  unfolding services_of
  marked-IsSound sound at = record {
    has_channel = sound.has_channel;
    fresh = sound.fresh;
    separate = sound.separate;
    signalled = λ k d h.
        ground (arith, ready-marked k, sound.signalled k d, sound.separate name k c, eq_iff name k);
    unprovided = λ k h.
        ground (arith, ready-marked k, sound.unprovided k, sound.has_channel name, eq_iff name k);
    listed = sound.listed;
  }

-- the three ways through the function
module _ (name : String) (r : ServiceRegistry) where
  mark_unprovided : lookup name r.service_providers ≡ none → mark_service_ready name r ≡ ok r
  unfolding mark_service_ready
  mark_unprovided h = rw h

  mark_ready : is_service_ready name r ≡ true → mark_service_ready name r ≡ ok r
  unfolding mark_service_ready
  mark_ready h = ground arith

  mark_first :
      (c : ℕ)
      → has name r.service_providers ≡ true
      → is_service_ready name r ≡ false
      → lookup name r.ready_channels ≡ some c
      → r.closed c ≡ false
      → mark_service_ready name r ≡ ok (marked name c r)
  unfolding mark_service_ready close
  mark_first c provided unready at open_ = ground arith

abbrev Marks : String → String → ServiceRegistry → ServiceRegistry → Type 0
Marks name k r r' =
    (mark_service_ready name r ≡ ok r')
    × IsSound r'
    × (is_service_ready k r'
        ≡ (if has name r.service_providers && name == k then true else is_service_ready k r))

mark_service_ready_first :
    (name k : String) (r : ServiceRegistry)
    → IsSound r
    → has name r.service_providers ≡ true
    → is_service_ready name r ≡ false
    → (r' : ServiceRegistry) × Marks name k r r'
mark_service_ready_first name k r sound provided unready =
    elim (Option-cases (lookup name r.ready_channels)) [
      | inl e ↦ absurd (false≢true (ground (arith, sound.has_channel name)))
      | inr (c, at) ↦ (
        marked name c r,
        (
          mark_first name r c provided unready at (sound.signalled name c at ∙ unready),
          marked-IsSound name c r sound at,
          rw provided (ready-marked name c r k),
        ),
      )
    ]

-- In a sound registry `MarkServiceReady` does not panic. It makes exactly the service ready, if a
-- plugin provides it, and the registry stays sound.
pub mark_service_ready_lem :
    (name k : String) (r : ServiceRegistry)
    → IsSound r
    → (r' : ServiceRegistry) × ((mark_service_ready name r ≡ ok r')
        × IsSound r'
        × (is_service_ready k r'
            ≡ (if has name r.service_providers && name == k then true else is_service_ready k r)))
mark_service_ready_lem name k r sound = elim (Option-cases (lookup name r.service_providers)) [
  | inl free ↦ (r, (mark_unprovided name r free, sound, rw free))
  | inr (p, provided) ↦ elim (Bool-cases (is_service_ready name r)) [
    | inl ready ↦ (r, (mark_ready name r ready, sound, ground (arith, eq_iff name k, ready)))
    | inr unready ↦ mark_service_ready_first name k r sound (rw provided) unready
  ]
]
