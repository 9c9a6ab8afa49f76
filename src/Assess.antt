-- ===== src/Assess.antt =====
-- src/r_sandbox/agent/security_assessor.py: the assessment of a run, and what its verdicts mean.
pub mod Events
pub mod Signals
pub mod Assessor
pub mod Verdicts
