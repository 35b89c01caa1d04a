-- ===== src/Daemon/Services/Sound/Initial.antt =====
-- `NewServiceRegistry` in daemon/service_registry.go.
use jack.Base.{refl}
use jack.Base.Lists.{mem}
use jack.Base.Maps.{lookup}
use jack.Daemon.Services.{new_service_registry, services_of, is_service_ready}
use jack.Daemon.Services.Sound.{IsSound}

pub new_service_registry-IsSound : IsSound new_service_registry
unfolding lookup services_of is_service_ready mem
new_service_registry-IsSound = record {
  has_channel = λ name. refl;
  fresh = λ name c e. cc;
  separate = λ a b c e f. cc;
  signalled = λ name c e. cc;
  unprovided = λ name e. refl;
  listed = λ name ns. refl;
}
