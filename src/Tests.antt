-- ===== src/Tests.antt =====
-- Runs of the model on small inputs, by component.
pub mod Lifecycle
pub mod Failover
pub mod Releases
pub mod Tokens
pub mod Bindings
pub mod Admin
pub mod Operations
pub mod Switch
pub mod Commands
pub mod Sites
