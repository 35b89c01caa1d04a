-- ===== src/Daemon/Services/Sound/Removal.antt =====
-- `UnregisterPlugin` in a sound registry: it closes the channel of each of the plugin's services, and
-- the channel of a service that is ready is closed already.
use mathlib.Core.Bool.{false≢true}
use jack.Base.{
  ◌∙◌, ℕ, String, ◌==◌, ◌≡◌, refl, Bool, true, false, Option, none, some, List, [], ◌∷◌, arith,
  eq_iff, eq_refl, if◌then◌else◌, inl, inr, Bool-cases, Option-cases,
}
use jack.Base.Lists.{mem}
use jack.Base.Maps.{lookup, delete, lookup-delete}
use jack.Base.Outcome.{ok, panic}
use jack.Daemon.Services.{
  ServiceRegistry, services_of, is_service_ready, close, unregister_service, unregister_services,
  unregister_plugin,
}
use jack.Daemon.Services.Sound.{IsSound, provider_is}
use jack.Daemon.Services.Sound.Channels.{
  HasChannels, IsSound-HasChannels, forgotten, removed, ready-forgotten, ready-removed,
  forgotten-HasChannels, removed-HasChannels,
}

-- What a round or the whole loop leaves: the services of `gone` are forgotten.
record Forgets (gone : List String) (r r' : ServiceRegistry) : Type 0 where
  channels : HasChannels r'
  lists : r'.plugin_services ≡ r.plugin_services
  providers :
      (k : String)
      → lookup k r'.service_providers ≡ (if mem k gone then none else lookup k r.service_providers)
  ready :
      (k : String) → is_service_ready k r' ≡ (if mem k gone then false else is_service_ready k r)

module _ (name : String) (r : ServiceRegistry) (h : HasChannels r) where
  forgotten-Forgets : lookup name r.ready_channels ≡ none → Forgets (name ∷ []) r (forgotten name r)
  unfolding mem
  forgotten-Forgets at = record {
    channels = forgotten-HasChannels name r h at;
    lists = refl;
    providers = λ k. ground (arith, lookup-delete name k r.service_providers);
    ready = λ k. ground (arith, ready-forgotten name r k);
  }

  removed-Forgets :
      (c : ℕ) → lookup name r.ready_channels ≡ some c → Forgets (name ∷ []) r (removed name c r)
  unfolding mem
  removed-Forgets c at = record {
    channels = removed-HasChannels name r c h at;
    lists = refl;
    providers = λ k. ground (arith, lookup-delete name k r.service_providers);
    ready = λ k. ground (arith, ready-removed name r c k);
  }

  -- a round for a service that is not ready
  unregister_service_unready :
      is_service_ready name r ≡ false
      → (r' : ServiceRegistry) × (unregister_service name r ≡ ok r') × Forgets (name ∷ []) r r'
  unfolding unregister_service close
  unregister_service_unready unready = elim (Option-cases (lookup name r.ready_channels)) [
    | inl at ↦ (forgotten name r, rw at, forgotten-Forgets at)
    | inr (c, at) ↦
        (removed name c r, ground (arith, at, h.signalled name c at), removed-Forgets c at)
  ]

  -- a round for a service that is ready
  unregister_service_ready :
      is_service_ready name r ≡ true → unregister_service name r ≡ panic "close of closed channel"
  unfolding unregister_service close
  unregister_service_ready ready = elim (Option-cases (lookup name r.ready_channels)) [
    | inl at ↦
        absurd (false≢true (ground (arith, h.has_channel name, h.unprovided name, at, ready)))
    | inr (c, at) ↦ ground (arith, at, h.signalled name c at, ready)
  ]

Forgets-trans :
    (name : String) (names : List String) (r s t : ServiceRegistry)
    → Forgets (name ∷ []) r s
    → Forgets names s t
    → Forgets (name ∷ names) r t
unfolding mem
Forgets-trans name names r s t f g = record {
  channels = g.channels;
  lists = g.lists ∙ f.lists;
  providers = λ k. ground (arith, f.providers k, g.providers k);
  ready = λ k. ground (arith, f.ready k, g.ready k);
}

-- none of the names is ready
abbrev NoneReady : List String → ServiceRegistry → Type 0
NoneReady names r = (k : String) → mem k names ≡ true → is_service_ready k r ≡ false

unregister_services_unready :
    (names : List String) (r : ServiceRegistry)
    → HasChannels r
    → NoneReady names r
    → (r' : ServiceRegistry) × (unregister_services names r ≡ ok r') × Forgets names r r'
unfolding unregister_services mem
unregister_services_unready [] r h unready =
    (r, refl, record { channels = h; lists = refl; providers = λ k. refl; ready = λ k. refl })
unregister_services_unready (name ∷ names) r h unready =
    let (s, first, f) = unregister_service_unready name r h (unready name (rw eq_refl)) in
    let (t, rest, g) =
      unregister_services_unready names s f.channels
        (λ k m. ground (arith, f.ready k, unready k)) in
    (t, rw first rest, Forgets-trans name names r s t f g)

unregister_services_ready :
    (names : List String) (name : String) (r : ServiceRegistry)
    → HasChannels r
    → mem name names ≡ true
    → is_service_ready name r ≡ true
    → unregister_services names r ≡ panic "close of closed channel"
unfolding unregister_services mem
unregister_services_ready [] name r h m ready = cc
unregister_services_ready (n ∷ names) name r h m ready = elim (Bool-cases (is_service_ready n r)) [
  | inl now ↦ rw (unregister_service_ready n r h now)
  | inr later ↦
      let (s, first, f) = unregister_service_unready n r h later in
      rw first (
        unregister_services_ready names name s f.channels (ground (arith, eq_iff n name))
          (ground (arith, f.ready name, eq_iff n name)))
]

-- the end of the function, behind the loop
abbrev dropped : String → ServiceRegistry → ServiceRegistry
dropped ns r = record r {
  plugin_services = delete ns r.plugin_services;
  plugins = delete ns r.plugins;
}

services_of-dropped :
    (ns other : String) (r s : ServiceRegistry)
    → s.plugin_services ≡ r.plugin_services
    → services_of other (dropped ns s) ≡ (if ns == other then [] else services_of other r)
unfolding services_of
services_of-dropped ns other r s e = rw (lookup-delete, services_of) (rw e (ground arith))

provider_is-eq : (ns : String) (o : Option String) → provider_is ns o ≡ true → o ≡ some ns
provider_is-eq ns none h = cc
provider_is-eq ns (some p) h = ground (arith, eq_iff p ns)

provider_is-dropped :
    (ns other : String) (o : Option String)
    → provider_is other (if provider_is ns o then none else o)
      ≡ (if ns == other then false else provider_is other o)
provider_is-dropped ns other none = ground arith
provider_is-dropped ns other (some p) = ground (arith, eq_iff ns other, eq_iff p ns, eq_iff p other)

mem-dropped :
    (k : String) (gone : Bool) (l : List String)
    → mem k (if gone then [] else l) ≡ (if gone then false else mem k l)
unfolding mem
mem-dropped k true l = refl
mem-dropped k false l = refl

dropped-IsSound :
    (ns : String) (r s : ServiceRegistry)
    → IsSound r
    → Forgets (services_of ns r) r s
    → IsSound (dropped ns s)
dropped-IsSound ns r s sound f = record {
  has_channel = f.channels.has_channel;
  fresh = f.channels.fresh;
  separate = f.channels.separate;
  signalled = unfold is_service_ready in f.channels.signalled;
  unprovided = unfold is_service_ready in f.channels.unprovided;
  listed = λ k other. rw (
    services_of-dropped ns other r s f.lists,
    mem-dropped,
    f.providers,
    sound.listed,
    sound.listed,
    provider_is-dropped,
  );
}

-- In a registry in which no service of the plugin is ready `UnregisterPlugin` does not panic: the
-- plugin's services are gone, every other service has its provider and its state, and the registry
-- stays sound.
pub unregister_plugin_unready :
    (ns k : String) (r : ServiceRegistry)
    → IsSound r
    → ((j : String) → lookup j r.service_providers ≡ some ns → is_service_ready j r ≡ false)
    → (r' : ServiceRegistry) × (unregister_plugin ns r ≡ ok r')
      × IsSound r'
      × (lookup k r'.service_providers ≡ (
          if provider_is ns (lookup k r.service_providers)
          then none
          else lookup k r.service_providers))
      × (is_service_ready k r'
          ≡ (if provider_is ns (lookup k r.service_providers) then false else is_service_ready k r))
unfolding unregister_plugin
unregister_plugin_unready ns k r sound unready =
    let names = services_of ns r in
    let none_ready : NoneReady names r =
      λ j m. unready j (provider_is-eq ns (lookup j r.service_providers) (rw sound.listed at m)) in
    let (s, loop, f) =
      unregister_services_unready names r (IsSound-HasChannels r sound) none_ready in
    (
      dropped ns s,
      rw loop,
      dropped-IsSound ns r s sound f,
      ground (arith, f.providers k, sound.listed k ns),
      ready-dropped s f,
    )
  where
    ready-dropped :
        (s : ServiceRegistry)
        → Forgets (services_of ns r) r s
        → is_service_ready k (dropped ns s)
          ≡ (if provider_is ns (lookup k r.service_providers) then false else is_service_ready k r)
    ready-dropped s f = rw (← sound.listed k ns) (unfold is_service_ready in f.ready k)

-- If a service of the plugin is ready, `UnregisterPlugin` closes a closed channel and panics.
pub unregister_plugin_panics :
    (ns name : String) (r : ServiceRegistry)
    → IsSound r
    → lookup name r.service_providers ≡ some ns
    → is_service_ready name r ≡ true
    → unregister_plugin ns r ≡ panic "close of closed channel"
unfolding unregister_plugin
unregister_plugin_panics ns name r sound provided ready = rw (
    unregister_services_ready (services_of ns r) name r (IsSound-HasChannels r sound)
      (ground (arith, sound.listed name ns, provided, eq_iff ns ns)) ready)
