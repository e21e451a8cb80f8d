-- ===== src/Metadata.antt =====
-- event-listener/src/metadata: the runtime metadata that a node sends, the events that it declares,
-- and the hashes of its storage entries.
pub mod Types
pub mod HashCache
pub mod TypeHash
pub mod Store
