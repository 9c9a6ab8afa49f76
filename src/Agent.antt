-- ===== src/Agent.antt =====
-- src/r_sandbox/agent: the planners of executions and of their environment, and the orchestrator.
pub mod Planner
pub mod Environment
pub mod Orchestrator
