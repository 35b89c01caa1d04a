-- ===== src/Daemon/Services.antt =====
-- daemon/service_registry.go: which plugin provides which service, and whether it is ready. A
-- channel is a number; `closed` tells whether it has been closed.
pub mod Sound
use jack.Base.{
  ℕ, ◌+◌, String, ◌==◌, Bool, true, false, not, Option, none, some, List, [], ◌∷◌, ◌++◌, eqb,
  is_some, if◌then◌else◌,
}
use jack.Base.Maps.{Map, lookup, insert, delete, has}
use jack.Base.Outcome.{Outcome, ok, err, panic, ◌>>=◌}
use jack.Daemon.Plugin.{Plugin, ServiceDescriptor}

pub record ServiceRegistry : Type 0 where
  pub service_providers : Map String
  pub plugin_services : Map (List String)
  pub plugins : Map Plugin
  pub service_ready : Map Bool
  pub ready_channels : Map ℕ
  pub closed : ℕ → Bool
  pub next : ℕ

abbrev pub new_service_registry : ServiceRegistry
new_service_registry = record {
  service_providers = [];
  plugin_services = [];
  plugins = [];
  service_ready = [];
  ready_channels = [];
  closed = λ c. false;
  next = 0;
}

-- Missing keys read as the zero value.
unfoldable pub services_of : String → ServiceRegistry → List String
services_of ns r = elim (lookup ns r.plugin_services) [ none ↦ [] | some l ↦ l ]

unfoldable pub is_service_ready : String → ServiceRegistry → Bool
is_service_ready name r = elim (lookup name r.service_ready) [ none ↦ false | some b ↦ b ]

unfoldable pub get_service_provider : String → ServiceRegistry → Option String
get_service_provider name r = lookup name r.service_providers

-- One round of the loop of `RegisterPlugin`, for a service that no plugin provides.
unfoldable pub register_service : String → String → ServiceRegistry → ServiceRegistry
register_service ns name r = record {
  service_providers = insert name ns r.service_providers;
  plugin_services = insert ns (services_of ns r ++ name ∷ []) r.plugin_services;
  plugins = r.plugins;
  service_ready = insert name false r.service_ready;
  ready_channels = insert name r.next r.ready_channels;
  closed = λ c. if eqb c r.next then false else r.closed c;
  next = r.next + 1;
}

-- The loop stops at a service that is taken; what it registered before stays.
unfoldable pub register_services :
    String → List ServiceDescriptor → ServiceRegistry → Outcome (Unit {0}) × ServiceRegistry
register_services ns [] r = (ok tt, r)
register_services ns (s ∷ ss) r =
    let rest = register_services ns ss (register_service ns s.name r) in
    if has s.name r.service_providers
    then (err "service is already provided by plugin", r)
    else rest

unfoldable pub register_plugin :
    String
    → Plugin
    → List ServiceDescriptor
    → ServiceRegistry
    → Outcome (Unit {0}) × ServiceRegistry
register_plugin ns plugin services r =
    register_services ns services (record r { plugins = insert ns plugin r.plugins })

-- `close(ch)`
unfoldable pub close : ℕ → ServiceRegistry → Outcome ServiceRegistry
close c r =
    if r.closed c
    then panic "close of closed channel"
    else ok (record r { closed = λ d. if eqb d c then true else r.closed d })

abbrev close_and_delete : String → Option ℕ → ServiceRegistry → Outcome ServiceRegistry
close_and_delete name none r = ok r
close_and_delete name (some c) r = do
  r' ← close c r
  ok (record r' { ready_channels = delete name r'.ready_channels })

-- One round of the loop of `UnregisterPlugin`.
unfoldable pub unregister_service : String → ServiceRegistry → Outcome ServiceRegistry
unregister_service name r = close_and_delete name (lookup name r.ready_channels) (record r {
  service_providers = delete name r.service_providers;
  service_ready = delete name r.service_ready;
})

unfoldable pub unregister_services : List String → ServiceRegistry → Outcome ServiceRegistry
unregister_services [] r = ok r
unregister_services (name ∷ names) r = do
  r' ← unregister_service name r
  unregister_services names r'

-- The registry at the panic of a `close`: the services before it are removed, and of its own what
-- the round had deleted.
unfoldable pub interrupted : List String → ServiceRegistry → ServiceRegistry
interrupted [] r = r
interrupted (name ∷ names) r = elim (unregister_service name r) [
  | ok r' ↦ interrupted names r'
  | err e ↦ r
  | panic e ↦ record r {
    service_providers = delete name r.service_providers;
    service_ready = delete name r.service_ready;
  }
]

-- A panic carries no registry; `interrupted` is what it leaves.
unfoldable pub unregister_plugin : String → ServiceRegistry → Outcome ServiceRegistry
unregister_plugin ns r = do
  r' ← unregister_services (services_of ns r) r
  ok (record r' { plugin_services = delete ns r'.plugin_services; plugins = delete ns r'.plugins })

abbrev close_channel : Option ℕ → ServiceRegistry → Outcome ServiceRegistry
close_channel none r = panic "close of nil channel"
close_channel (some c) r = close c r

unfoldable pub mark_service_ready : String → ServiceRegistry → Outcome ServiceRegistry
unfolding is_service_ready
mark_service_ready name r =
    if not (has name r.service_providers)
    then ok r
    else if is_service_ready name r
    then ok r
    else close_channel (lookup name r.ready_channels)
        (record r { service_ready = insert name true r.service_ready })

unfoldable pub validate_service_dependencies : List String → ServiceRegistry → Outcome (Unit {0})
validate_service_dependencies [] r = ok tt
validate_service_dependencies (name ∷ names) r =
    let rest = validate_service_dependencies names r in
    if not (has name r.service_providers) then err "required service is not available" else rest

unfoldable pub are_services_ready : List String → ServiceRegistry → Bool
are_services_ready [] r = true
are_services_ready (name ∷ names) r =
    let rest = are_services_ready names r in if not (is_service_ready name r) then false else rest

-- A call of `WaitForService` returns at once or blocks on a channel.
pub data Wait : Type 0 where
  returns : Outcome (Unit {0}) → Wait
  blocks : ℕ → Wait

unfoldable pub wait_for_service : String → ServiceRegistry → Wait
wait_for_service name r = elim (lookup name r.ready_channels) [
  | none ↦ returns (err "service not found")
  | some c ↦ if is_service_ready name r then returns (ok tt) else blocks c
]
