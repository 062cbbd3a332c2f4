-- ===== src/Shared.antt =====
-- plugins/shared/src: the types and constants that all plugins use.
pub mod Types
pub mod Levels
pub mod Json
pub mod Policy
pub mod Errors
pub mod Tasks
pub mod Messages
