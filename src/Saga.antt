-- ===== src/Saga.antt =====
-- libs/saga-toolkit and apps/saga-orchestrator: the generic saga engine, the checkout saga, and the
-- state machine behind the orchestrator's consumer.
pub mod Toolkit
pub mod Definition
pub mod Machine
pub mod Steps
pub mod Changes
pub mod Running
pub mod Dispatch
pub mod Safety
pub mod Delivery
pub mod Compensation
mod Examples
unfoldable pub use Toolkit.*
unfoldable pub use Definition.*
unfoldable pub use Machine.*
