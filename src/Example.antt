-- ===== src/Example.antt =====
-- The module modules/example: its configuration, its records and the events that it writes.
pub mod Types
pub mod Database
pub mod Migrations
pub mod Configuration
pub mod Writes
pub mod Announced
pub mod Runs
pub mod Module
pub mod Samples
pub mod Tests
