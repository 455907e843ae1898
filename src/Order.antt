-- ===== src/Order.antt =====
-- apps/order-service: the aggregate, the command handlers and the consumer.
pub mod Domain
pub mod Service
pub mod Branches
pub mod Outcomes
pub mod Finality
pub mod Causes
pub mod Rows
mod Examples
unfoldable pub use Domain.*
unfoldable pub use Service.*
