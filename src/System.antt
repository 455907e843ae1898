-- ===== src/System.antt =====
-- The services together: the gateway's commands, the three services with their relays, and the
-- orchestrator, over Kafka.
pub mod Model
pub mod Facts
pub mod Trace
pub mod Heard
pub mod Services
pub mod Orchestrator
pub mod Safety
pub mod Checkout
mod Examples
