-- ===== src/Builder/Laws.antt =====
-- src/r_sandbox/tools/sandbox_builder/builder.py: the laws of `build`.
pub mod Authority
pub mod Output
pub mod Contract
