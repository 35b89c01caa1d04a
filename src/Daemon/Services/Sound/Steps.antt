-- ===== src/Daemon/Services/Sound/Steps.antt =====
-- Registering a plugin keeps the invariant of the service registry.
use jack.Base.{
  String, ◌==◌, ◌≡◌, false, none, List, [], ◌∷◌, ◌++◌, arith, eq_iff, if◌then◌else◌, inl, inr,
  Option-cases,
}
use jack.Base.Lists.{mem, mem-append}
use jack.Base.Maps.{lookup, lookup-insert}
use jack.Daemon.Plugin.{ServiceDescriptor}
use jack.Daemon.Services.{
  ServiceRegistry, services_of, is_service_ready, register_service, register_services,
}
use jack.Daemon.Services.Sound.{IsSound, provider_is}

module _ (ns name : String) (r : ServiceRegistry) where
  services_of-register :
      (other : String)
      → services_of other (register_service ns name r)
        ≡ (if ns == other then services_of ns r ++ name ∷ [] else services_of other r)
  unfolding services_of register_service
  services_of-register other = rw (lookup-insert, services_of) (ground arith)

  ready-register :
      (other : String)
      → is_service_ready other (register_service ns name r)
        ≡ (if name == other then false else is_service_ready other r)
  unfolding is_service_ready register_service
  ready-register other = rw (lookup-insert, is_service_ready) (ground arith)

  module _ (sound : IsSound r) (free : lookup name r.service_providers ≡ none) where
    unchannelled : lookup name r.ready_channels ≡ none
    unchannelled = ground (arith, sound.has_channel name)

    listed-register :
        (k other : String)
        → mem k (services_of other (register_service ns name r))
          ≡ provider_is other (lookup k (register_service ns name r).service_providers)
    unfolding register_service mem
    listed-register k other =
        rw (services_of-register other, lookup-insert)
          (ground (
            arith,
            mem-append k (services_of ns r) (name ∷ []),
            sound.listed k other,
            sound.listed k ns,
            eq_iff name k,
            eq_iff ns other,
            free,
          ))

    pub register_service-IsSound : IsSound (register_service ns name r)
    unfolding register_service
    register_service-IsSound = record {
      has_channel = λ k. rw lookup-insert (rw lookup-insert (ground (arith, sound.has_channel k)));
      fresh =
          λ k c h. ground (arith, lookup-insert name k r.next r.ready_channels, sound.fresh k c);
      separate = λ a b c ha hb. ground (
        arith,
        lookup-insert name a r.next r.ready_channels,
        lookup-insert name b r.next r.ready_channels,
        sound.separate a b c,
        sound.fresh a c,
        sound.fresh b c,
        eq_iff name a,
        eq_iff name b,
      );
      signalled = λ k c h. ground (
        arith,
        lookup-insert name k r.next r.ready_channels,
        sound.signalled k c,
        sound.fresh k c,
        ready-register k,
      );
      unprovided = λ k h. ground (
        arith,
        lookup-insert name k ns r.service_providers,
        sound.unprovided k,
        ready-register k,
      );
      listed = listed-register;
    }

-- The loop of `RegisterPlugin` keeps the registry sound, whether it succeeds or stops at a service
-- that is taken.
pub register_services-IsSound :
    (ns : String) (services : List ServiceDescriptor) (r : ServiceRegistry)
    → IsSound r
    → IsSound (register_services ns services r).1
unfolding register_services
register_services-IsSound ns [] r sound = sound
register_services-IsSound ns (s ∷ ss) r sound =
    elim (Option-cases (lookup s.name r.service_providers)) [
      | inl free ↦ rw free (
          register_services-IsSound ns ss (register_service ns s.name r)
            (register_service-IsSound ns s.name r sound free))
      | inr (p, taken) ↦ rw taken sound
    ]
