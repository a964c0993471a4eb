-- ===== src/Audit.antt =====
-- The audit log.
pub mod Types
pub mod Sign
pub mod Table
pub mod Write
pub mod Classify
pub mod Report
pub mod Scan
pub mod Verdict
pub mod Prune
pub mod Intact
mod Examples
