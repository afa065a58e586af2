-- ===== src/Resilience.antt =====
-- packages/resilience/src: retries around a policy, and the factory of policies.
pub mod Policy
pub mod Retries
pub mod Factory
