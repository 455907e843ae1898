-- ===== src/Outbox.antt =====
-- libs/database/src/outbox: the relay that moves outbox rows to Kafka.
pub mod Relay
pub mod Marks
pub mod Delivered
pub mod Batch
pub mod Drain
pub mod Passes
pub mod Oldest
pub mod Sources
mod Examples
