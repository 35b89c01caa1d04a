-- ===== src/Daemon/State.antt =====
-- daemon/state.go: the registry of configurations, committed, pending and last applied.
-- The three fields of an entry hold references: a configuration is a pointer to a struct or a map,
-- and several fields may share one. `heap` is what the references point to. A struct holds a Go map,
-- which is a reference too: `map_of` tells which map an object holds, named by the object that it
-- was made for. Two objects with one map both show what is written into it.
pub mod Entries
pub mod Pending
pub mod Isolation
pub mod Initial
pub mod Contents
use jack.Base.{
  ℕ, ◌+◌, String, Bool, false, ◌||◌, Option, none, some, List, [], ◌∷◌, eqb, is_some, if◌then◌else◌,
}
use jack.Base.Maps.{Map, lookup, insert, map_values}
use jack.Base.Outcome.{Outcome, ok, err}
use jack.Types.Network.{InterfacesConfig, RoutesConfig, JackConfig}
use jack.Daemon.Config.{Config, interfaces, routes, jack_config, plugin}

-- A nil interface, or an address of the heap.
abbrev pub Ref : Type 0
Ref = Option ℕ

pub record ConfigEntry : Type 0 where
  pub committed : Ref
  pub pending : Ref
  pub last_applied : Ref

abbrev pub new_entry : ConfigEntry
new_entry = record { committed = none; pending = none; last_applied = none }

pub record State : Type 0 where
  pub registry : Map ConfigEntry
  pub heap : ℕ → Option Config
  pub map_of : ℕ → ℕ
  pub next : ℕ

abbrev pub new_state : State
new_state = record { registry = []; heap = λ a. none; map_of = λ a. a; next = 0 }

-- `&config`: a reference to a new object with a new map.
unfoldable pub alloc : Config → State → ℕ × State
alloc c s = (
  s.next,
  record s {
    heap = λ a. if eqb a s.next then some c else s.heap a;
    map_of = λ a. if eqb a s.next then s.next else s.map_of a;
    next = s.next + 1;
  },
)

map_id : Ref → State → ℕ
map_id none s = s.next
map_id (some a) s = s.map_of a

-- `dst := *src`: a reference to a new object, which holds the map of the old one.
unfoldable pub copy_struct : Ref → Config → State → ℕ × State
unfolding map_id
copy_struct r c s = (
  s.next,
  record s {
    heap = λ a. if eqb a s.next then some c else s.heap a;
    map_of = λ a. if eqb a s.next then map_id r s else s.map_of a;
    next = s.next + 1;
  },
)

-- `dst.Interfaces = make(...)`: the object, which becomes `c`, holds a new map.
unfoldable pub give_map : ℕ → Config → State → State
give_map p c s = record s {
  heap = λ a. if eqb a p then some c else s.heap a;
  map_of = λ a. if eqb a p then p else s.map_of a;
}

-- What an object shows after its map was written to what `c` holds.
abbrev pub with_map_of : Config → Config → Config
with_map_of (interfaces c) (interfaces d) = interfaces (record d { interfaces = c.interfaces })
with_map_of (routes c) (routes d) = routes (record d { routes = c.routes })
with_map_of (plugin fs) (plugin gs) = plugin fs
with_map_of c d = d

abbrev map_written : Config → Option Config → Option Config
map_written c none = none
map_written c (some d) = some (with_map_of c d)

-- A write through a reference, into the map that the object holds. It shows in every object that
-- holds the same map. The write of a whole map, which assigns the field, is taken as such a write
-- too: other objects with the map are given more of the change than in the source, never less.
unfoldable pub store : ℕ → Config → State → State
store p c s = record s {
  heap = λ a.
      if eqb a p
      then some c
      else if eqb (s.map_of a) (s.map_of p)
      then map_written c (s.heap a)
      else s.heap a;
}

abbrev pub load : State → Ref → Option Config
load s none = none
load s (some a) = s.heap a

-- `entry, exists := s.registry[configType]`, auto-registered if it is missing
unfoldable pub entry_or_new : String → State → ConfigEntry
entry_or_new k s = elim (lookup k s.registry) [ none ↦ new_entry | some e ↦ e ]

unfoldable pub load_committed : String → Ref → State → State
load_committed k config s =
    let entry = entry_or_new k s in
    record s {
      registry = insert k (record entry { committed = config; pending = none }) s.registry;
    }

abbrev unknown_type {ℓ} : {A : Type ℓ} → Outcome A
unknown_type = err "unknown config type"

unfoldable pub get_current : String → State → Outcome Ref
get_current k s = elim (lookup k s.registry) [
  | none ↦ unknown_type
  | some e ↦ ok (if is_some e.pending then e.pending else e.committed)
]

unfoldable pub get_committed : String → State → Outcome Ref
get_committed k s = elim (lookup k s.registry) [ none ↦ unknown_type | some e ↦ ok e.committed ]

-- A type assertion to a pointer to a struct; it fails on nil too.
abbrev pub as_interfaces : Option Config → Option InterfacesConfig
as_interfaces (some (interfaces c)) = some c
as_interfaces other = none

abbrev pub as_routes : Option Config → Option RoutesConfig
as_routes (some (routes c)) = some c
as_routes other = none

abbrev pub as_jack : Option Config → Option JackConfig
as_jack (some (jack_config c)) = some c
as_jack other = none

-- An error is dropped and leaves nil.
abbrev pub loaded : State → Outcome Ref → Option Config
loaded s (ok r) = load s r
loaded s failed = none

unfoldable pub get_current_interfaces : State → Option InterfacesConfig
get_current_interfaces s = as_interfaces (loaded s (get_current "interfaces" s))

unfoldable pub get_current_routes : State → Option RoutesConfig
get_current_routes s = as_routes (loaded s (get_current "routes" s))

unfoldable pub get_current_jack_config : State → Option JackConfig
get_current_jack_config s = as_jack (loaded s (get_current "jack" s))

unfoldable pub get_committed_interfaces : State → Option InterfacesConfig
get_committed_interfaces s = as_interfaces (loaded s (get_committed "interfaces" s))

any_pending : Map ConfigEntry → Bool
any_pending [] = false
any_pending ((k, e) ∷ m) = is_some e.pending || any_pending m

unfoldable pub has_pending : State → Bool
unfolding any_pending
has_pending s = any_pending s.registry

unfoldable pub has_pending_for : String → State → Bool
has_pending_for k s = elim (lookup k s.registry) [ none ↦ false | some e ↦ is_some e.pending ]

unfoldable pub set_pending : String → Ref → State → State
set_pending k config s = record s {
  registry = insert k (record (entry_or_new k s) { pending = config }) s.registry;
}

abbrev pub commit_entry : ConfigEntry → ConfigEntry
commit_entry e = if is_some e.pending then record e { committed = e.pending; pending = none } else e

unfoldable pub commit_pending : State → Outcome (Unit {0}) × State
unfolding has_pending
commit_pending s = (
  if has_pending s then ok tt else err "no pending changes to commit",
  record s { registry = map_values commit_entry s.registry },
)

abbrev pub revert_entry : ConfigEntry → ConfigEntry
revert_entry e = record e { pending = none }

unfoldable pub revert_pending : State → Outcome (Unit {0}) × State
revert_pending s = (ok tt, record s { registry = map_values revert_entry s.registry })

pending_types : Map ConfigEntry → List String
pending_types [] = []
pending_types ((k, e) ∷ m) =
    let rest = pending_types m in if is_some e.pending then k ∷ rest else rest

unfoldable pub get_pending_types : State → List String
unfolding pending_types
get_pending_types s = pending_types s.registry

unfoldable pub set_last_applied : String → Ref → State → State
set_last_applied k config s = record s {
  registry = insert k (record (entry_or_new k s) { last_applied = config }) s.registry;
}

unfoldable pub get_last_applied : String → State → Outcome Ref
get_last_applied k s = elim (lookup k s.registry) [
  | none ↦ unknown_type
  | some e ↦ ok e.last_applied
]
