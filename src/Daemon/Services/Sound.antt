-- ===== src/Daemon/Services/Sound.antt =====
-- The invariant of the service registry.
pub mod Initial
pub mod Steps
pub mod Marks
pub mod Channels
pub mod Removal
use jack.Base.{
  ℕ, ◌<◌, String, ◌==◌, ◌≡◌, refl, Bool, true, false, Option, none, some, List, [], ◌∷◌, arith,
  is_some,
}
use jack.Base.Lists.{mem}
use jack.Base.Maps.{Map, lookup}
use jack.Daemon.Services.{ServiceRegistry, services_of, is_service_ready}

abbrev pub provider_is : String → Option String → Bool
provider_is ns none = false
provider_is ns (some p) = p == ns

-- Each service that is provided has a channel of its own, which is closed exactly if the service is
-- ready; a plugin's list holds exactly the services that it provides.
pub record IsSound (r : ServiceRegistry) : Type 0 where
  pub has_channel :
      (name : String)
      → is_some (lookup name r.ready_channels) ≡ is_some (lookup name r.service_providers)
  pub fresh : (name : String) (c : ℕ) → lookup name r.ready_channels ≡ some c → c < r.next
  pub separate :
      (a b : String) (c : ℕ)
      → lookup a r.ready_channels ≡ some c
      → lookup b r.ready_channels ≡ some c
      → a ≡ b
  pub signalled :
      (name : String) (c : ℕ)
      → lookup name r.ready_channels ≡ some c
      → r.closed c ≡ is_service_ready name r
  pub unprovided :
      (name : String) → lookup name r.service_providers ≡ none → is_service_ready name r ≡ false
  pub listed :
      (name ns : String)
      → mem name (services_of ns r) ≡ provider_is ns (lookup name r.service_providers)
