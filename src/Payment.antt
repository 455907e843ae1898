-- ===== src/Payment.antt =====
-- apps/payment-service
pub mod Domain
pub mod Gateway
pub mod Service
pub mod Branches
pub mod Runs
pub mod Once
mod Examples
