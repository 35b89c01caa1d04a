-- ===== src/Tests/Services.antt =====
-- daemon/service_registry.go with one plugin and its service.
use jack.Base.{◌≡◌, ◌∷◌, [], true, false, ◌&&◌, ◌==◌, none, if◌then◌else◌, arith}
use jack.Base.Maps.{lookup, lookup-insert, has}
use jack.Base.Outcome.{ok}
use jack.Daemon.Plugin.{ServiceDescriptor}
use jack.Daemon.Services.{
  ServiceRegistry, new_service_registry, register_services, mark_service_ready, is_service_ready,
  unregister_plugin, register_service,
}
use jack.Daemon.Services.Sound.{IsSound, provider_is}
use jack.Daemon.Services.Sound.Initial.{new_service_registry-IsSound}
use jack.Daemon.Services.Sound.Steps.{register_services-IsSound}
use jack.Daemon.Services.Sound.Marks.{mark_service_ready_lem}
use jack.Daemon.Services.Sound.Removal.{unregister_plugin_unready}

abbrev dns : ServiceDescriptor
dns = record { name = "dns"; description = "name resolution"; methods = [] }

abbrev started : ServiceRegistry
started = (register_services "dnsmasq" (dns ∷ []) new_service_registry).1

started-IsSound : IsSound started
started-IsSound =
    register_services-IsSound "dnsmasq" (dns ∷ []) new_service_registry new_service_registry-IsSound

mark_service_ready_lem_example :
    (r' : ServiceRegistry) × ((mark_service_ready "dns" started ≡ ok r')
      × IsSound r'
      × (is_service_ready "dns" r' ≡ (
          if has "dns" started.service_providers && "dns" == "dns"
          then true
          else is_service_ready "dns" started)))
mark_service_ready_lem_example = mark_service_ready_lem "dns" "dns" started started-IsSound

unregister_plugin_unready_example :
    (r' : ServiceRegistry) × (unregister_plugin "dnsmasq" started ≡ ok r')
    × IsSound r'
    × (lookup "dns" r'.service_providers ≡ (
        if provider_is "dnsmasq" (lookup "dns" started.service_providers)
        then none
        else lookup "dns" started.service_providers))
    × (is_service_ready "dns" r' ≡ (
        if provider_is "dnsmasq" (lookup "dns" started.service_providers)
        then false
        else is_service_ready "dns" started))
unfolding register_services register_service lookup is_service_ready
unregister_plugin_unready_example =
    unregister_plugin_unready "dnsmasq" "dns" started started-IsSound
      (λ j e. ground (arith, lookup-insert "dns" j false []))
