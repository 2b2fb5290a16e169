-- ===== src/Examples.antt =====
-- The external code at concrete functions, and each property at a concrete input.
mod Reload
mod Sessions
mod Invitations
mod Memberships
mod Authenticate
mod Packages
mod Tables
mod Engine
mod Api
