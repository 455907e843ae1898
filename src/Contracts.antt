-- ===== src/Contracts.antt =====
-- libs/event-contracts: the payload classes, the events and commands that carry them, and the
-- statuses that the services store.
mod Statuses
mod Payloads
mod Json
mod Events
mod Commands
mod Envelope
pub use Statuses.*
pub use Payloads.*
unfoldable pub use Json.*
unfoldable pub use Events.*
unfoldable pub use Commands.*
unfoldable pub use Envelope.*
