-- ===== src/Observe.antt =====
-- src/r_sandbox/tools/runtime_observer/observer.py and src/r_sandbox/agent/reflection.py: what a run
-- is taken for, and whether it is tried again.
pub mod Classes
pub mod Inspect
pub mod Replan
pub mod Laws
pub mod Reflect
pub mod Manifest
