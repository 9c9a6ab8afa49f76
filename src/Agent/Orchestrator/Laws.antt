-- ===== src/Agent/Orchestrator/Laws.antt =====
-- src/r_sandbox/agent/orchestrator.py: the laws of `run`.
pub mod Counting
pub mod Effects
pub mod Static
pub mod Coherence
pub mod Report
pub mod Retry
pub mod Answered
pub mod Mediation
