-- ===== src/Api.antt =====
-- internal/api: the handlers of the service.
pub mod Server
pub mod Authorize
pub mod Authenticate
pub mod Guards
pub mod Roles
pub mod Memberships
pub mod Sessions
pub mod DeviceLogins
pub mod Invitations
