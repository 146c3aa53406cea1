-- ===== src/Manifest.antt =====
-- core/src/manifest.rs: the desired state of an installation, the metadata of the release that the
-- binary supports, and the validation of the one against the other.
pub mod Types
pub mod Acyclic
pub mod Validate
pub mod Samples
pub mod Tests
