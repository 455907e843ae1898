-- ===== src/EventSourcing.antt =====
-- libs/event-sourcing-core and the event-store repositories: aggregates, the tables of a service,
-- the write path and replay, once for the three services that share it.
mod Aggregate
mod Tables
pub mod Replay
pub mod Consistency
pub mod Outcomes
pub mod RoundTrip
pub mod Snapshot
unfoldable pub use Aggregate.*
unfoldable pub use Tables.*
