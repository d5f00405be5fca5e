-- ===== src/Repos.antt =====
-- The repositories of adapters/repos over the database, which is a parameter.
pub mod Database
pub mod Messages
pub mod Rows
pub mod Paging
pub mod Follow
pub mod Versions
pub mod VersionRows
pub mod Activation
pub mod Subscriptions
pub mod Upsert
pub mod Interchanges
pub mod Service
pub mod Again
