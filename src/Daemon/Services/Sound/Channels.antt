-- ===== src/Daemon/Services/Sound/Channels.antt =====
-- Forgetting a service keeps what the invariant says of the channels.
use jack.Base.{
  ℕ, ◌<◌, String, ◌==◌, ◌≡◌, true, false, none, some, arith, eq_iff, is_some, eqb, if◌then◌else◌,
}
use jack.Base.Maps.{lookup, delete, lookup-delete}
use jack.Daemon.Services.{ServiceRegistry, is_service_ready}
use jack.Daemon.Services.Sound.{IsSound}

-- What holds all through the loop: the invariant without the lists of services.
pub record HasChannels (r : ServiceRegistry) : Type 0 where
  pub has_channel :
      (name : String)
      → is_some (lookup name r.ready_channels) ≡ is_some (lookup name r.service_providers)
  pub separate :
      (a b : String) (c : ℕ)
      → lookup a r.ready_channels ≡ some c
      → lookup b r.ready_channels ≡ some c
      → a ≡ b
  pub fresh : (name : String) (c : ℕ) → lookup name r.ready_channels ≡ some c → c < r.next
  pub signalled :
      (name : String) (c : ℕ)
      → lookup name r.ready_channels ≡ some c
      → r.closed c ≡ is_service_ready name r
  pub unprovided :
      (name : String) → lookup name r.service_providers ≡ none → is_service_ready name r ≡ false

pub IsSound-HasChannels : (r : ServiceRegistry) → IsSound r → HasChannels r
IsSound-HasChannels r s = record {
  has_channel = s.has_channel;
  separate = s.separate;
  fresh = s.fresh;
  signalled = s.signalled;
  unprovided = s.unprovided;
}

-- the registry with a service forgotten, before its channel is looked at
abbrev pub forgotten : String → ServiceRegistry → ServiceRegistry
forgotten name r = record r {
  service_providers = delete name r.service_providers;
  service_ready = delete name r.service_ready;
}

abbrev pub removed : String → ℕ → ServiceRegistry → ServiceRegistry
removed name c r = record r {
  service_providers = delete name r.service_providers;
  service_ready = delete name r.service_ready;
  ready_channels = delete name r.ready_channels;
  closed = λ d. if eqb d c then true else r.closed d;
}

module _ (name : String) (r : ServiceRegistry) where
  pub ready-forgotten :
      (k : String)
      → is_service_ready k (forgotten name r) ≡ (if name == k then false else is_service_ready k r)
  unfolding is_service_ready
  ready-forgotten k = rw (lookup-delete, is_service_ready) (ground arith)

  pub ready-removed :
      (c : ℕ) (k : String)
      → is_service_ready k (removed name c r) ≡ (if name == k then false else is_service_ready k r)
  unfolding is_service_ready
  ready-removed c k = rw (lookup-delete, is_service_ready) (ground arith)

  pub forgotten-HasChannels :
      HasChannels r → lookup name r.ready_channels ≡ none → HasChannels (forgotten name r)
  forgotten-HasChannels h at = record {
    has_channel = λ k.
        ground
          (arith, lookup-delete name k r.service_providers, h.has_channel k, eq_iff name k, at);
    separate = h.separate;
    fresh = h.fresh;
    signalled = λ k c e. ground (arith, ready-forgotten k, h.signalled k c, eq_iff name k, at);
    unprovided = λ k e.
        ground (arith, ready-forgotten k, lookup-delete name k r.service_providers, h.unprovided k);
  }

  pub removed-HasChannels :
      (c : ℕ)
      → HasChannels r
      → lookup name r.ready_channels ≡ some c
      → HasChannels (removed name c r)
  removed-HasChannels c h at = record {
    has_channel = λ k. ground (
      arith,
      lookup-delete name k r.service_providers,
      lookup-delete name k r.ready_channels,
      h.has_channel k,
    );
    separate = λ a b d ha hb. ground (
      arith,
      lookup-delete name a r.ready_channels,
      lookup-delete name b r.ready_channels,
      h.separate a b d,
    );
    fresh = λ k d e. ground (arith, lookup-delete name k r.ready_channels, h.fresh k d);
    signalled = λ k d e. ground (
      arith,
      ready-removed c k,
      lookup-delete name k r.ready_channels,
      h.signalled k d,
      h.separate name k c,
      eq_iff name k,
    );
    unprovided = λ k e.
        ground (arith, ready-removed c k, lookup-delete name k r.service_providers, h.unprovided k);
  }
