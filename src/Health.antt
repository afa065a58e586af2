-- ===== src/Health.antt =====
-- packages/health/src: the report over health checks and the registry that runs them; and the
-- shutdown and the endpoints of packages/tsed-health/src.
pub mod Report
pub mod Registry
pub mod Sharing
pub mod Detail
pub mod Shutdown
pub mod Draining
pub mod Endpoints
pub mod Agreement
pub mod Breaker
