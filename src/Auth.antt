-- ===== src/Auth.antt =====
-- packages/auth and packages/tsed-auth: what a request presents, what a verifier answers, the
-- chain of verifiers that a route names, and the guard that applies its decision.
pub mod Outcome
pub mod Authenticator
pub mod Keys
pub mod Jwt
pub mod Guard
