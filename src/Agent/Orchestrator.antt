-- ===== src/Agent/Orchestrator.antt =====
-- src/r_sandbox/agent/orchestrator.py.
pub mod Services
pub mod Parts
pub mod Survey
pub mod Round
pub mod Run
pub mod Entry
pub mod Laws
