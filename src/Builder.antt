-- ===== src/Builder.antt =====
-- src/r_sandbox/tools/sandbox_builder/builder.py.
pub mod Checks
pub mod Grants
pub mod Output
pub mod Build
pub mod Laws
