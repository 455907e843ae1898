-- ===== src/Inventory.antt =====
-- apps/inventory-service
pub mod Domain
pub mod Rounding
pub mod Stock
pub mod Service
pub mod Updates
pub mod Cover
pub mod Quantities
pub mod Facts
pub mod Branches
pub mod Shortage
pub mod Held
pub mod Effects
pub mod Balance
mod Examples
