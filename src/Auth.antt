-- ===== src/Auth.antt =====
-- plugins/auth-enterprise/src: who a user is and what the user may do.
pub mod Roles
pub mod Http
pub mod Keys
pub mod Validator
pub mod Middleware
pub mod Sessions
pub mod Admin
