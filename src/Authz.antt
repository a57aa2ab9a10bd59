-- ===== src/Authz.antt =====
-- src/authz: principals, delegation, replay protection and execution binding.
pub mod Scope
pub mod Principal
pub mod Delegation
pub mod Replay
pub mod Execution
pub mod Decision
pub mod Gateway
