-- ===== src/Events.antt =====
-- event-listener/src/events: the events of a block, and their subscription.
pub mod Codec
pub mod Details
pub mod Block
pub mod Filter
pub mod Subscription
pub mod Client
pub mod Records
