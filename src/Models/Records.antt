-- ===== src/Models/Records.antt =====
-- src/r_sandbox/models.py: the dataclasses that the planner, the policy and the runtime exchange,
-- as they are once their fields have the declared types.
use r_sandbox.Prelude.{ℕ, Bool, Option, List, Text, filter}
use r_sandbox.Prelude.Int.{ℤ}
use r_sandbox.Prelude.Float.{Float}
use r_sandbox.Models.Enums.{
  AgentPhase, CapabilityCategory, RiskLevel, Decision, AgentOutcome, SecurityVerdict,
  RuntimeEvidenceSource, EnvironmentReadiness, is_allow, is_deny, is_require_approval,
}

-- A Python number: `bool` and `int` are told apart, as `type(x) is int` does.
pub data Number : Type 0 where
  bool : Bool → Number
  int : ℤ → Number
  float : Float → Number

pub record Evidence : Type 0 where
  pub source : Text
  pub detail : Text
  pub line : Option Number

pub record Finding : Type 0 where
  pub finding_id : Text
  pub category : CapabilityCategory
  pub action : Text
  pub target : Text
  pub risk : RiskLevel
  pub reason : Text
  pub evidence : List Evidence

pub record Dependency : Type 0 where
  pub name : Text
  pub specifier : Text
  pub source : Text

pub record Entrypoint : Type 0 where
  pub path : Text
  pub argv : List Text
  pub confidence : Float
  pub evidence : Text

pub record RepositoryProfile : Type 0 where
  pub root : Text
  pub goal : Text
  pub summary : Text
  pub files : List Text
  pub entrypoints : List Entrypoint
  pub dependencies : List Dependency
  pub findings : List Finding
  pub warnings : List Text
  pub snapshot_digest : Text
  pub snapshot_omissions : List Text
  pub authorization_context : Text

pub record EnvironmentPlan : Type 0 where
  pub runtime : Text
  pub image : Text
  pub image_pinned : Bool
  pub readiness : EnvironmentReadiness
  pub dependencies : List Dependency
  pub warnings : List Text

pub record CapabilityRequest : Type 0 where
  pub request_id : Text
  pub category : CapabilityCategory
  pub action : Text
  pub target : Text
  pub justification : Text
  pub confidence : Number
  pub risk : RiskLevel
  pub evidence : List Evidence

pub record PlanStep : Type 0 where
  pub step_id : Text
  pub purpose : Text
  pub argv : List Text
  pub cwd : Text
  pub capabilities : List CapabilityRequest

pub record ExecutionPlan : Type 0 where
  pub goal : Text
  pub summary : Text
  pub steps : List PlanStep
  pub assumptions : List Text
  pub attempt : ℤ

pub record PolicyDecision : Type 0 where
  pub request : CapabilityRequest
  pub decision : Decision
  pub reason : Text

pub record Authorization : Type 0 where
  pub decisions : List PolicyDecision

unfoldable pub pending : Authorization → List PolicyDecision
pending a = filter (λ d. is_require_approval d.decision) a.decisions

unfoldable pub denied : Authorization → List PolicyDecision
denied a = filter (λ d. is_deny d.decision) a.decisions

unfoldable pub allowed : Authorization → List PolicyDecision
allowed a = filter (λ d. is_allow d.decision) a.decisions

pub record RuntimeEvent : Type 0 where
  pub event_type : Text
  pub action : Text
  pub target : Text
  pub allowed : Bool
  pub detail : Text
  pub source : RuntimeEvidenceSource

pub record ExecutionResult : Type 0 where
  pub status : AgentOutcome
  pub exit_code : Option ℤ
  pub stdout : Text
  pub stderr : Text
  pub duration_seconds : Number
  pub events : List RuntimeEvent
  pub command_preview : List Text

pub record Reflection : Type 0 where
  pub classification : Text
  pub explanation : Text
  pub should_retry : Bool
  pub plan_changes : List Text

pub record PhaseRecord : Type 0 where
  pub phase : AgentPhase
  pub message : Text

pub record SecurityAssessment : Type 0 where
  pub verdict : SecurityVerdict
  pub risk_score : ℕ
  pub summary : Text
  pub reasons : List Text
  pub static_findings : List Finding
  pub runtime_events : List RuntimeEvent
