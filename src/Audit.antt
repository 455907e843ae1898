-- ===== src/Audit.antt =====
-- apps/audit-ledger-service/src: the append-only record of every message on every topic.
pub mod Ledger
pub mod Records
pub mod Runs
mod Examples
