-- ===== src/Tests.antt =====
-- Runs of the model at concrete inputs, and the theorems applied there.
mod Data
mod Policy
mod Models
mod Builder
mod Orchestrator
mod Report
mod Agent
mod Assess
mod Observe
mod Scan
