-- ===== src/Hub.antt =====
-- apps/hub-api: the control plane.
pub mod Records
pub mod Memory
pub mod Tokens
pub mod Service
