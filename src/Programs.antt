-- ===== src/Programs.antt =====
-- The programs core/src/main.rs, core/src/bin/migrate.rs and core/src/bin/bc.rs.
pub mod Types
pub mod Start
pub mod Migrate
pub mod Api
pub mod Serves
pub mod Installs
pub mod Bc
pub mod Ends
pub mod Samples
pub mod Tests
