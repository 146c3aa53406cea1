-- ===== src/Http.antt =====
-- The HTTP handlers of core/src/http/routes.rs, the request context of core/src/context.rs and
-- `ReadinessDatabase` of core/src/database.rs.
pub mod Context
pub mod Routes
pub mod Ready
pub mod Tests
