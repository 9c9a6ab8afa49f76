-- ===== src/Models.antt =====
-- src/r_sandbox/models.py: the enums, the dataclasses, and the untrusted objects that the trust
-- boundaries of the program take apart.
pub mod Enums
pub mod Records
pub mod Value
pub mod Canonical
pub mod Findings
pub mod Limits
pub mod Sandbox
pub mod Equality
pub mod Report
pub mod Payload
pub mod Gate
