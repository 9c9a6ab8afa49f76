-- ===== src/Models/Enums.antt =====
-- src/r_sandbox/models.py: the enums, with the texts of their members.
use r_sandbox.Prelude.{Bool, true, false, Text, lit}

pub data AgentPhase : Type 0 where
  observe understand plan authorize build execute monitor reflect replan report : AgentPhase

pub data CapabilityCategory : Type 0 where
  filesystem network process secret device resource side_effect : CapabilityCategory

pub data RiskLevel : Type 0 where
  low medium high critical : RiskLevel

pub data Decision : Type 0 where
  allow deny require_approval : Decision

pub data AgentOutcome : Type 0 where
  analyzed planned succeeded failed blocked awaiting_approval runtime_unavailable : AgentOutcome

pub data SecurityVerdict : Type 0 where
  safe review unsafe inconclusive : SecurityVerdict

pub data RuntimeEvidenceSource : Type 0 where
  target_telemetry supervisor independent_observer : RuntimeEvidenceSource

pub data EnvironmentReadiness : Type 0 where
  no_declared_dependencies prebuilt_image_required : EnvironmentReadiness

unfoldable pub category_value : CapabilityCategory → Text
category_value filesystem = lit "filesystem"
category_value network = lit "network"
category_value process = lit "process"
category_value secret = lit "secret"
category_value device = lit "device"
category_value resource = lit "resource"
category_value side_effect = lit "side_effect"

unfoldable pub risk_value : RiskLevel → Text
risk_value low = lit "low"
risk_value medium = lit "medium"
risk_value high = lit "high"
risk_value critical = lit "critical"

unfoldable pub source_text : RuntimeEvidenceSource → Text
source_text target_telemetry = lit "target_telemetry"
source_text supervisor = lit "supervisor"
source_text independent_observer = lit "independent_observer"

unfoldable pub outcome_value : AgentOutcome → Text
outcome_value analyzed = lit "analyzed"
outcome_value planned = lit "planned"
outcome_value succeeded = lit "succeeded"
outcome_value failed = lit "failed"
outcome_value blocked = lit "blocked"
outcome_value awaiting_approval = lit "awaiting_approval"
outcome_value runtime_unavailable = lit "runtime_unavailable"

-- `==` against a member.
abbrev pub is_network : CapabilityCategory → Bool
is_network network = true
is_network _ = false

abbrev pub is_process : CapabilityCategory → Bool
is_process process = true
is_process _ = false

abbrev pub is_secret : CapabilityCategory → Bool
is_secret secret = true
is_secret _ = false

abbrev pub is_device : CapabilityCategory → Bool
is_device device = true
is_device _ = false

abbrev pub is_resource : CapabilityCategory → Bool
is_resource resource = true
is_resource _ = false

abbrev pub is_filesystem : CapabilityCategory → Bool
is_filesystem filesystem = true
is_filesystem _ = false

abbrev pub is_high : RiskLevel → Bool
is_high high = true
is_high _ = false

abbrev pub is_critical : RiskLevel → Bool
is_critical critical = true
is_critical _ = false

abbrev pub is_allow : Decision → Bool
is_allow allow = true
is_allow _ = false

abbrev pub is_deny : Decision → Bool
is_deny deny = true
is_deny _ = false

abbrev pub is_require_approval : Decision → Bool
is_require_approval require_approval = true
is_require_approval _ = false

abbrev pub is_planned : AgentOutcome → Bool
is_planned planned = true
is_planned _ = false

abbrev pub is_succeeded : AgentOutcome → Bool
is_succeeded succeeded = true
is_succeeded _ = false

abbrev pub is_failed : AgentOutcome → Bool
is_failed failed = true
is_failed _ = false

abbrev pub is_runtime_unavailable : AgentOutcome → Bool
is_runtime_unavailable runtime_unavailable = true
is_runtime_unavailable _ = false

abbrev pub is_target_telemetry : RuntimeEvidenceSource → Bool
is_target_telemetry target_telemetry = true
is_target_telemetry _ = false

abbrev pub is_supervisor : RuntimeEvidenceSource → Bool
is_supervisor supervisor = true
is_supervisor _ = false

abbrev pub is_safe : SecurityVerdict → Bool
is_safe safe = true
is_safe _ = false
