-- ===== src/Failover.antt =====
-- apps/failover-worker/src/main.rs: moving a site from its primary node to a standby node.
pub mod Snapshot
pub mod Bindings
pub mod Policy
pub mod Dns
pub mod Operations
pub mod Tables
pub mod Database
pub mod Load
pub mod Apply
pub mod Execute
pub mod Run
