-- ===== src/Reconcile.antt =====
-- The first-install reconciliation of core/src/reconcile.rs.
pub mod Types
pub mod Deployment
pub mod Secrets
pub mod Sources
pub mod Diagnostics
pub mod Effects
pub mod Status
pub mod Ready
pub mod Plan
pub mod Apply
pub mod Phases
pub mod Urls
pub mod Handover
pub mod Project
pub mod Samples
pub mod Reader
pub mod Tests
