-- ===== src/Lib.antt =====
-- The configuration daemon of Jack, a network gateway: its transactional store of configurations,
-- its path language for reading and writing them, the registries of plugins and services, and the
-- handlers of the daemon that use these.
--
-- A client sends requests over a socket; daemon/server.go dispatches each to a handler. `set` and
-- `get` rewrite the path by the plugin registry, find the configuration type in it, and read or
-- change a configuration by daemon/path.go, which reaches the fields of structs by
-- daemon/navigator.go. The configurations are kept by daemon/state.go: committed, pending and
-- last applied, by type. At start, plugins are loaded in the order of their dependencies and
-- registered by namespace (daemon/registry.go) and by the services they provide
-- (daemon/service_registry.go).
--
-- Base holds what the parts share: Go maps as association lists (Maps), lists, results with
-- errors and panics (Outcome), integers, texts. Types has the data of types/types.go and
-- types/jack.go and decoded JSON values; encoding/json itself is a parameter (Types/Codec).
--
-- Daemon has a module for each file of daemon/:
-- - Daemon/State: daemon/state.go. A configuration is a pointer in the source, and entries may
--   share one, so an entry holds references into a heap. `alloc` and `store` are `&x` and an
--   assignment through a pointer. The Go map that a struct or a plugin configuration holds has an
--   identity too, so that a copy of a struct that keeps its map is told from one with a map of
--   its own: a write shows in every object with the same map. The maps inside a plugin
--   configuration are copied as a whole tree, by JSON, and have no identity of their own.
-- - Daemon/Path, Daemon/Path/Generic, Daemon/Navigator: daemon/path.go and daemon/navigator.go. A
--   struct is seen as the list of its JSON tags with their fields, which stands for reflection.
-- - Daemon/Registry, Daemon/Services: daemon/registry.go and daemon/service_registry.go, with
--   channels as numbers and a record of which are closed.
-- - Daemon/Order: `orderPluginsByDependencies` of daemon/server.go. The recursion of its visits
--   runs on fuel, one unit per nested visit. Nested visits are of different enabled plugins, so
--   the number of enabled plugins is enough.
-- - Daemon/Loading: the waves of `loadPlugins` of daemon/server.go, on fuel. Each wave but the
--   last marks a plugin as loaded, so two more than the number of enabled plugins is enough;
--   whether a plugin can be loaded, and loading it, are the parameter `Loader`, which
--   Daemon/Startup fills with `canLoadPlugin` and `loadSinglePlugin`.
-- - Daemon/Diff: daemon/diff.go and the diff handler of daemon/server.go. Maps and pointers in
--   the structs of other configurations are compared by the parameter `DeepEqual`, which also
--   says where of two slices without elements one is nil and the other is not.
-- - Daemon/Server: the handlers of daemon/server.go, `rewritePath` and the deep copies.
-- - Daemon/Commit: the commit and revert handlers of daemon/server.go. The RPC calls of plugins
--   and the writing of files are its parameter `Backend`.
-- - Daemon/Requests: sequences of the calls that change the configuration state, and the store of
--   plain values that they refine (Requests/Spec).
-- - Daemon/Host, Daemon/Apply, Daemon/Checkpoints: the apply of daemon/server.go with its
--   rollback, and the handlers of apply, rollback and checkpoints. The kernel, the processes of
--   the plugins and the configuration files are the parameter `Host`; its `restore`, for
--   instance, is `RestoreSnapshot` of system/.
-- - Daemon/Runtime: the handlers that enable, disable and rescan plugins, with daemon/loader.go
--   and state/jack.go, over the parameter `Processes`.
-- - Daemon/Observer: daemon/observer.go and daemon/observer_helpers.go. An event carries what its
--   handler reads while it runs: the clock, the state, the names of links.
-- - Daemon/Interfaces: `orderInterfaces` of daemon/server.go.
-- - Daemon/Snapshots: the snapshots of daemon/state.go, over a parameter for the disk.
--
-- Validation has validation/validation.go and validation/builder.go, Types/Validate the
-- `Validate` methods of types/types.go. The parsers of the standard library are the parameter
-- `Parsers`.
--
-- System/Members models the functions of system/snapshot_manager.go and system/network_manager.go
-- that bring the addresses of a link or the ports of a bridge to a wanted list, System/Addresses
-- those that give a link its static address, System/Routes the capture and the rollback of routes
-- in system/snapshot_manager.go. Netlink is a parameter there too.
--
-- Function names are those of the source in lower case with underscores. Errors are kept as their
-- fixed text, without the values formatted into it; a nil map is told from an empty one where the
-- code may assign to it. Locks are left out: each operation takes the one lock of its object for
-- its whole body, so calls are in sequence.
--
-- Not modelled: the sockets and the JSON framing, the rest of system/ and its clients of netlink,
-- sysctl and nft, the RPC layer and the plugins themselves (processes behind an interface), the
-- command line of cmd/ and the client, and logging.
pub mod Base
pub mod Types
pub mod Validation
pub mod Daemon
pub mod System
pub mod Tests
