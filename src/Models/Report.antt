-- ===== src/Models/Report.antt =====
-- src/r_sandbox/models.py: `AgentReport`, with what the orchestrator appends to it.
use r_sandbox.Prelude.{Option, none, List, [], ◌∷◌, ◌++◌, Text}
use r_sandbox.Models.Enums.{AgentPhase, AgentOutcome}
use r_sandbox.Models.Records.{
  RepositoryProfile, EnvironmentPlan, ExecutionPlan, Authorization, ExecutionResult,
  SecurityAssessment, Reflection, PhaseRecord,
}
use r_sandbox.Models.Sandbox.{SandboxSpec}

pub record AgentReport : Type 0 where
  pub outcome : AgentOutcome
  pub goal : Text
  pub repository : Text
  pub profile : Option RepositoryProfile
  pub environment_plan : Option EnvironmentPlan
  pub plan : Option ExecutionPlan
  pub authorization : Option Authorization
  pub sandbox : Option SandboxSpec
  pub execution : Option ExecutionResult
  pub execution_history : List ExecutionResult
  pub security_assessment : Option SecurityAssessment
  pub reflections : List Reflection
  pub timeline : List PhaseRecord
  pub files_changed : List Text
  pub reproduction : List Text
  pub notes : List Text

-- `AgentReport(outcome, goal, repository)`
unfoldable pub new_report : AgentOutcome → (goal repository : Text) → AgentReport
new_report outcome goal repository = record {
  outcome = outcome;
  goal = goal;
  repository = repository;
  profile = none;
  environment_plan = none;
  plan = none;
  authorization = none;
  sandbox = none;
  execution = none;
  execution_history = [];
  security_assessment = none;
  reflections = [];
  timeline = [];
  files_changed = [];
  reproduction = [];
  notes = [];
}

-- `_record`
unfoldable pub record_phase : AgentPhase → Text → AgentReport → AgentReport
record_phase phase message r = record r {
  timeline = r.timeline ++ record { phase = phase; message = message } ∷ [];
}

-- `report.notes.append(note)`
unfoldable pub note : Text → AgentReport → AgentReport
note text r = record r { notes = r.notes ++ text ∷ [] }
