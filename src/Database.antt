-- ===== src/Database.antt =====
-- The provisioning of an installation database by core/src/database.rs.
pub mod Types
pub mod Roles
pub mod Identifiers
pub mod Identity
pub mod Sql
pub mod Session
pub mod Sent
pub mod Provision
pub mod Migrate
pub mod Script
pub mod Parts
pub mod Checked
pub mod Scripted
pub mod Removal
pub mod Clean
pub mod Asked
pub mod Scoped
pub mod Reading
pub mod Privileges
pub mod Samples
pub mod Tests
