-- ===== src/Agent/Orchestrator/Survey.antt =====
-- src/r_sandbox/agent/orchestrator.py: `_run_snapshot` up to the choice of a dynamic run.
use r_sandbox.Prelude.{
  ◌*◌, Bool, false, Option, none, some, List, [], ◌∷◌, ◌++◌, map, Text, lit, length, decimal, strip,
  unique, Result, ok, ◌>>=◌,
}
use r_sandbox.Prelude.Int.{pos}
use r_sandbox.Prelude.Float.{finite, units_per_one}
use r_sandbox.Python.{Python}
use r_sandbox.System.{Trace}
use r_sandbox.Models.Enums.{observe, understand, plan, authorize, report, analyzed, blocked}
use r_sandbox.Models.Records.{
  int, float, RepositoryProfile, EnvironmentPlan, ExecutionPlan, Authorization, SecurityAssessment,
  ExecutionResult, pending, denied, allowed,
}
use r_sandbox.Models.Report.{AgentReport, new_report, record_phase, note}
use r_sandbox.Models.Value.{Value, values, finding_value, plan_value, authorization_value}
use r_sandbox.Models.Canonical.Snapshot.{result_value}
use r_sandbox.Policy.Config.{PolicyConfig}
use r_sandbox.Policy.Handlers.{safe_executables}
use r_sandbox.Policy.Engine as Engine
use r_sandbox.Assess.Assessor.{assess}
use r_sandbox.Agent.Planner as Planner
use r_sandbox.Agent.Environment.{environment_plan}
use r_sandbox.Agent.Orchestrator.Services.{Services, Order}
use r_sandbox.Agent.Orchestrator.Parts.{quarantined_plan, reproduction_argv}

abbrev pub execution_value : Option ExecutionResult → Option Value
execution_value none = none
execution_value (some r) = some (result_value r)

-- The local variables behind the authorization.
pub record Surveyed : Type 0 where
  pub profile : RepositoryProfile
  pub environment : EnvironmentPlan
  pub warnings : List Text
  pub first_plan : ExecutionPlan
  pub config : PolicyConfig
  pub first_authorization : Authorization
  pub first_report : AgentReport

-- `self.assessor.assess(profile.findings, authorization, execution, assessment_warnings)`
unfoldable pub assessed :
    Python → Surveyed → Authorization → Option ExecutionResult → Result SecurityAssessment
unfolding assess
assessed P s a e =
    assess P (Value.tuple (values (map finding_value s.profile.findings))) (authorization_value a)
      (execution_value e) s.warnings

-- `replace(analyzed_profile, ...)`
unfoldable pub localized : Order → RepositoryProfile → RepositoryProfile
localized u p = record p {
  root = u.repository;
  warnings = unique [] (u.snapshot_warnings ++ p.warnings);
  snapshot_digest = u.snapshot_digest;
  snapshot_omissions = u.snapshot_omissions;
  authorization_context = u.authorization_context;
}

unfoldable pub policy_config : Order → Bool → PolicyConfig
unfolding units_per_one safe_executables
policy_config u pinned = record {
  repository = u.repository;
  output = u.output;
  approved_request_ids = u.approved_request_ids;
  network_allowlist = u.network_allowlist;
  allowed_executables = safe_executables;
  max_cpus = float (finite false (2 * units_per_one));
  max_memory_mb = int (pos 4096);
  max_pids = int (pos 256);
  max_timeout_seconds = int (pos 1800);
  max_output_mb = int (pos 4096);
  max_output_files = int (pos 50000);
  max_temporary_mb = int (pos 512);
  max_shared_memory_mb = int (pos 512);
  repository_digest = u.snapshot_digest;
  authorization_context = u.authorization_context;
  approval_context_immutable = pinned;
}

understood : RepositoryProfile → Text
understood p =
    lit "Identified "
    ++ (decimal (length p.entrypoints)
        ++ (lit " entrypoint(s), "
            ++ (decimal (length p.dependencies)
                ++ (lit " dependencies, and "
                    ++ (decimal (length p.findings) ++ lit " security-relevant behavior(s).")))))

-- The report as it stands behind the planning.
unfoldable pub planned_report :
    Order → RepositoryProfile → EnvironmentPlan → ExecutionPlan → AgentReport
unfolding new_report record_phase understood
planned_report u profile environment p =
    record_phase plan p.summary
      (record (record_phase understand (understood profile)
        (record (record_phase observe
          (lit
            "Created a bounded, sanitized repository snapshot; the source checkout will never be mounted.")
          (new_report analyzed (strip u.goal) u.repository)) {
            profile = some profile;
            environment_plan = some environment;
          })) { plan = some p })

-- The survey of a profile.
unfoldable pub survey_profile : Python → Services → Order → RepositoryProfile → Result Surveyed
unfolding policy_config planned_report Planner.select_entrypoint Planner.plan Engine.authorize
    environment_plan
survey_profile P S u profile =
    let environment = environment_plan profile u.image in
    let entrypoint = Planner.select_entrypoint P profile in
    let config = policy_config u environment.image_pinned in
    do
      capabilities ← S.infer profile entrypoint
      p ← Planner.plan P profile capabilities (pos 1) entrypoint
      a ← Engine.authorize P (plan_value p) config
      ok (record {
        profile = profile;
        environment = environment;
        warnings = unique [] (profile.warnings ++ environment.warnings);
        first_plan = p;
        config = config;
        first_authorization = a;
        first_report = record (planned_report u profile environment p) { authorization = some a };
      })

-- `_run_snapshot` up to the authorization.
unfoldable pub survey : Python → Services → Order → Trace → Result Surveyed
unfolding localized survey_profile
survey P S u t = do
  analyzed_profile ← S.understand t u.execution_repository (strip u.goal)
  survey_profile P S u (localized u analyzed_profile)

-- The report on a plan with a malformed request.
unfoldable pub rejected_report : Python → Surveyed → Result AgentReport
unfolding quarantined_plan assessed record_phase note
rejected_report P s = do
  p ← quarantined_plan s.first_plan s.first_authorization
  a ← assessed P s s.first_authorization none
  ok (
      record_phase report (lit "Malformed capability proposal blocked before host effects.") (
        note
          (lit
            "A malformed semantic-layer proposal was quarantined at the deterministic policy boundary; no sandbox was built or executed.")
          (record s.first_report {
            plan = some p;
            outcome = blocked;
            security_assessment = some a;
          })))

authorized_message : Authorization → Text
unfolding allowed denied pending
authorized_message a =
    lit "Policy allowed "
    ++ (decimal (length (allowed a))
        ++ (lit ", denied "
            ++ (decimal (length (denied a))
                ++ (lit ", and held "
                    ++ (decimal (length (pending a)) ++ lit " request(s) for approval.")))))

-- The report with its static assessment.
unfoldable pub static_report : Python → Order → Surveyed → Result AgentReport
unfolding assessed record_phase reproduction_argv authorized_message
static_report P u s = do
  a ← assessed P s s.first_authorization none
  ok
      (record (record_phase authorize (authorized_message s.first_authorization)
        (record s.first_report {
          reproduction = s.first_report.reproduction ++ reproduction_argv u ∷ [];
        })) { security_assessment = some a })
