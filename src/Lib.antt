-- ===== src/Lib.antt =====
-- The event listener: a client of a Substrate node that subscribes to new blocks, decodes the events
-- of each block with the node's metadata, and filters them by their static types; the template
-- pallet that emits such events; and a node with this pallet that runs the listener as a task.
--
-- How the parts interact. An `OnlineClient` asks the node for its metadata and its version
-- (event-listener/src/client). `EventsClient::subscribe` subscribes to block headers, and
-- `EventSubscription` asks, for each header, for the bytes of the storage item `System.Events` at that
-- block. `Events` cuts these bytes into `EventDetails`, with the map of events that the conversion of
-- the metadata has built, and `FilterEvents` yields those that decode to a type of its tuple.
-- `new_full` (node/src/service.rs) sets up a node from its configuration and spawns its tasks, among
-- them `listen_event` of event-listener-example; `run` (node/src/command.rs) calls it where the
-- command line has no subcommand.
--
-- Which file models what:
--   Prelude, Outcome   shared names; results, and runs that may panic
--   Error              event-listener/src/error.rs, and the errors of metadata/metadata_type.rs
--   Metadata.Types     the parts of frame_metadata and scale_info that the program reads
--   Metadata.HashCache event-listener/src/metadata/hash_cache.rs: `get_or_insert`, also
--                      by threads that interleave between the locks (Metadata.HashCache.Threads), and
--                      with the guards of the lock (Metadata.HashCache.Locks)
--   Metadata.TypeHash  event-listener/src/metadata/metadata_utils.rs: `get_type_hash`,
--                      `get_storage_entry_hash`, `get_storage_hash`
--   Metadata.Store     event-listener/src/metadata/metadata_type.rs: `Metadata`, `event`,
--                      `storage_hash`, `TryFrom<RuntimeMetadataPrefixed>`
--   Events.Codec       event-listener/src/events/mod.rs: `Phase`, `StaticEvent`
--   Events.Details     `EventDetails` of event-listener/src/events/events_type.rs
--   Events.Block       `Events` of the same file: `new`, `iter`, `find`, `find_first`, `has`
--   Events.Records     the test utilities of the same file: `event_record`, `metadata`, `events`,
--                      `events_raw`
--   Events.Filter      event-listener/src/events/filter_events.rs
--   Events.Subscription  event-listener/src/events/event_subscription.rs; `filter_events`, which joins
--                      it with the stream of filter_events.rs, is in Events.Subscription.Filtered
--   Events.Client      event-listener/src/events/events_client.rs
--   Rpc.Params         `RpcParams` and `rpc_params!` of event-listener/src/rpc/rpc_client.rs, and
--                      `prep_params_for_jsonrpsee` of event-listener/src/rpc/jsonrpsee_impl.rs
--   Rpc.Client         `RpcClient` and `Subscription` of event-listener/src/rpc/rpc_client.rs
--   Rpc.Methods        `Rpc` of event-listener/src/rpc/rpc.rs
--   Rpc.Jsonrpsee      `RpcClientT` for jsonrpsee: event-listener/src/rpc/jsonrpsee_impl.rs
--   Client             event-listener/src/client; the constructors that connect are in Client.Connect
--   Utils              event-listener/src/utils.rs
--   Example            event-listener-example/src/lib.rs
--   Pallet             pallets/template/src/lib.rs
--   Config             event-listener/src/config.rs
--   Runtime            runtime/src/lib.rs: the constants; the order of the pallets (Runtime.Pallets),
--                      the types of the chain (Runtime.Types), the APIs (Runtime.Apis) and the
--                      keys that a benchmark does not count (Runtime.Whitelist)
--   Node.ChainSpec     node/src/chain_spec.rs, and `load_spec` of node/src/command.rs
--   Node.Benchmarking  node/src/benchmarking.rs
--   Node.Substrate     the configuration and the crates that node/src/service.rs uses
--   Node.Tasks         states, failures and tasks of the set-up of a node
--   Node.Service       node/src/service.rs: `new_partial`, `new_full`
--   Node.Command       node/src/command.rs: `run`, and node/src/cli.rs
--   Node.Rpc           node/src/rpc.rs: `create_full`
--   Tests              a small chain that the theorems are applied to
--
-- How state and effects are represented. An index out of range, an `unwrap` and an `expect` are
-- `panic` of `Run`. An iterator is the list of what it yields together with the function of one
-- call of `next`; a stream is a function of one poll, over a script of what its inner stream gives
-- to each poll. An asynchronous function is the function of the connection's state that it computes
-- when it is awaited. A hash map is an association list. A lock is the value that it guards; that
-- threads interleave between two locks of the hash cache is a step relation on the cache and the
-- stages of their calls, with or without the guards that they hold; what the cache is as a map,
-- whatever the order of its entries, is a quotient of the association lists. The set-up of a node
-- is a function of a state (the world of the crates that it calls, the tasks that it has spawned,
-- whether the network is started) with errors and panics. Numbers are natural numbers: `index`
-- stays below the `u32` `num_events`, and `checked_add` of the pallet tests against 2 ^ 32.
--
-- Parameters. The decoders of codec and scale_decode (`Codec`, with `IsLawful` for what the program
-- relies on: a decoder takes bytes off the front, and `u8` takes one; and `IsInverse`: the decoders
-- read back what the encoders of `Encoders` write), the values of scale_value, twox_256 and
-- twox_128, serde_json (`Json`), hex, the node (`RpcClient`), the transport of jsonrpsee
-- (`Transport`), when parking_lot's lock grants a guard (`RwLock`), and frame_system for the
-- pallet. For the configuration, the runtime and the set-up of a node, each module has a record
-- `Crates` of the types and functions of Substrate that it uses.
--
-- Fuel. `items` runs on one more than the number of bytes of the block, as each event takes at least
-- one; `get_type_hash` runs on one more than the number of types of the registry, as each call
-- visits a new one; the next power of two of a `u32` is one of 32. Consumers of the streams run on
-- the number of polls that they may make.
--
-- Not modelled: what macros make of the runtime, its call, event and origin types and the
-- associated types of its pallets that are no constants; the transport of jsonrpsee; the parsing of
-- arguments; re-exports, derived instances, weights, and the tests beside the utilities that build
-- events.
pub mod Prelude
pub mod Outcome
pub mod Error
pub mod Metadata
pub mod Events
pub mod Rpc
pub mod Config
pub mod Client
pub mod Pallet
pub mod Utils
pub mod Example
pub mod Runtime
pub mod Node
mod Tests
