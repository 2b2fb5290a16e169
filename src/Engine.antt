-- ===== src/Engine.antt =====
-- The authorization engine: internal/authorization.
pub mod Match
pub mod Resource
pub mod Casbin
pub mod Policy
pub mod Cache
pub mod Authorize
pub mod Reload
