-- ===== src/Composition.antt =====
-- core/src/composition.rs, with the ports of modules/example-consumer.
pub mod Types
pub mod Compose
pub mod Labels
pub mod Only
pub mod Transport
pub mod Supported
pub mod Tests
