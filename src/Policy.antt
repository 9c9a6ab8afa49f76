-- ===== src/Policy.antt =====
-- src/r_sandbox/policy: validation of proposals, canonical identifiers and the policy engine.
pub mod Checks
pub mod Request
pub mod Plan
pub mod Identity
pub mod Config
pub mod Handlers
pub mod Engine
pub mod Confinement
