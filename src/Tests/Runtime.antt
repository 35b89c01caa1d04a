-- ===== src/Tests/Runtime.antt =====
-- Enabling and disabling a plugin while the daemon runs.
use mathlib.Core.Path.{subst}
use jack.Base.{◌≡◌, refl, [], Option, some, none}
use jack.Base.Maps.{entries, lookup, insert}
use jack.Base.Lists.{mem, Unique}
use jack.Base.Outcome.{ok, err}
use jack.Types.Network.{JackConfig}
use jack.Daemon.Plugin.{Plugin}
use jack.Daemon.Registry.{new_plugin_registry, register, get, get_namespace_for_plugin}
use jack.Daemon.Registry.Laws.{IsConsistent-new, register-IsConsistent}
use jack.Daemon.Services.{new_service_registry, unregister_plugin, unregister_services, services_of}
use jack.Daemon.Services.Sound.Initial.{new_service_registry-IsSound}
use jack.Daemon.Runtime.{
  Processes, Manager, default_jack_config, handle_plugin_enable, handle_plugin_disable,
  load_jack_config, unload_plugin, save_state, dependents,
}
use jack.Daemon.Runtime.Keeps.{Good, plugin_handlers-IsGood}
use jack.Daemon.Runtime.Disabled.{After, handle_plugin_disable_lem}
use jack.Daemon.Order.{enabled_plugins}
use jack.Daemon.State.{new_state}
use jack.Daemon.State.Initial.{new_state-IsIsolated}
use jack.Daemon.Startup.{load_all_plugins}
use jack.Daemon.Startup.Keeps.{EndsReady, load_all_plugins-EndsReady}
use jack.Tests.Plugins.{plugin_with}

abbrev dnsmasq : Plugin
dnsmasq = let p = plugin_with "" in record p { metadata = record p.metadata { namespace = "dhcp" } }

-- Every call succeeds; there are no files but the one that is saved.
abbrev processes : Processes
processes = record {
  World = Option JackConfig;
  load_plugin = λ name w. (ok dnsmasq, w);
  close = λ p w. (none, w);
  flush = λ p w. (none, w);
  apply_value = λ p v w. (none, w);
  scan = λ w. (ok [], w);
  read_value = λ name w. err "no such file";
  read_jack = λ w. none;
  save_jack = λ c w. (none, some c);
}

abbrev running : Manager processes
running = record {
  registry = (register dnsmasq "dnsmasq" new_plugin_registry).1;
  services = new_service_registry;
  world = none;
}

plugin_handlers-IsGood_example :
    Good processes (handle_plugin_enable processes "monitoring" running)
    × Good processes (handle_plugin_disable processes "monitoring" running)
plugin_handlers-IsGood_example = plugin_handlers-IsGood processes "monitoring" running (
  register-IsConsistent dnsmasq "dnsmasq" new_plugin_registry IsConsistent-new,
  new_service_registry-IsSound,
)

abbrev stopped : Manager processes
stopped = (handle_plugin_disable processes "dnsmasq" running).1

stops :
    handle_plugin_disable processes "dnsmasq" running ≡ (ok "Plugin disabled successfully", stopped)
unfolding handle_plugin_disable load_jack_config lookup register insert get_namespace_for_plugin get
    unload_plugin unregister_plugin unregister_services services_of save_state dependents mem
stops = refl

handle_plugin_disable_lem_example : After processes "dnsmasq" running.registry stopped
handle_plugin_disable_lem_example =
    handle_plugin_disable_lem processes "dnsmasq" "Plugin disabled successfully" running stopped
      new_service_registry-IsSound stops

-- Three plugins are enabled by default; all of them turn out to have one namespace.
load_all_plugins-EndsReady_example :
    EndsReady processes (load_all_plugins processes running new_state)
unfolding load_jack_config enabled_plugins mem
load_all_plugins-EndsReady_example =
    load_all_plugins-EndsReady processes running new_state
      (λ c e.
        let same : default_jack_config ≡ c = cc in
        subst (λ x. Unique (enabled_plugins (entries x.plugins))) same (refl, (refl, (refl, tt))))
      (
        register-IsConsistent dnsmasq "dnsmasq" new_plugin_registry IsConsistent-new,
        new_service_registry-IsSound,
      )
      new_state-IsIsolated
