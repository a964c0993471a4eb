-- ===== src/Guard.antt =====
-- The filtering proxy before the Docker daemon: internal/dockerguard.
pub mod Names
pub mod Types
pub mod Policy
pub mod Iptables
pub mod Uuids
pub mod Proxy
mod Examples
