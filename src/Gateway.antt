-- ===== src/Gateway.antt =====
-- apps/api-gateway/src: who may order, the command that an order becomes, and its status.
pub mod Orders
pub mod Accepted
mod Examples
