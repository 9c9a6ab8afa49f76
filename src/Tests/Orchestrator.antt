-- ===== src/Tests/Orchestrator.antt =====
-- The orchestrator with concrete components.
use r_sandbox.Prelude.{
  ℕ, ◌+◌, ◌-◌, ◌*◌, ◌%◌, ◌^◌, ◌≤◌, ◌≡◌, refl, true, false, some, List, [], ◌∷◌, ◌++◌, Text, lit,
  take, any, Result, ok, err, decimal, ◌>>=◌, All,
}
use r_sandbox.Prelude.Int.{pos}
use r_sandbox.Prelude.Float.{one_float, exact}
use r_sandbox.Python.{Python}
use r_sandbox.System.{Trace, lift, ask, continue, ◌then_run◌}
use r_sandbox.Models.Enums.{
  CapabilityCategory, filesystem, process, resource, low, succeeded, failed,
}
use r_sandbox.Models.Records.{int, float, RepositoryProfile, CapabilityRequest, ExecutionResult}
use r_sandbox.Models.Report.{AgentReport, new_report}
use r_sandbox.Models.Value.{Value}
use r_sandbox.Models.Canonical.Snapshot.{result_value}
use r_sandbox.Policy.Identity.{capability_request_id}
use r_sandbox.Observe.Manifest.{OutputManifest}
use r_sandbox.Agent.Orchestrator.Services.{analyze, shadow, captured, Services, Order}
use r_sandbox.Models.Value.{plan_value}
use r_sandbox.Models.Findings.{canonical_findings}
use r_sandbox.Policy.Plan.{ValidatedPlan, validate_execution_plan, has_error}
use r_sandbox.Builder.Build.{build}
use r_sandbox.Observe.Replan.{switch_justification}
use r_sandbox.Agent.Planner.{executables, control_tokens, audit_flags, step_of}
use r_sandbox.Agent.Environment.{environment_plan}
use r_sandbox.Agent.Orchestrator.Parts.{as_mode, attempts_of}
use r_sandbox.Agent.Orchestrator.Survey.{Surveyed, survey, policy_config, rejected_report}
use r_sandbox.Agent.Orchestrator.Round.{Loop, Ending, again, shadow_report}
use r_sandbox.Agent.Orchestrator.Run.{run_snapshot}
use r_sandbox.Agent.Orchestrator.Entry.{Request, run}
use r_sandbox.Agent.Orchestrator.Laws.Counting.{executions}
use r_sandbox.Agent.Orchestrator.Laws.Effects.{run_budget, run-executions}
use r_sandbox.Agent.Orchestrator.Laws.Static.{OnlySnapshot, run-analyze, run_snapshot-malformed}
use r_sandbox.Agent.Orchestrator.Laws.Answered.{IsAnswered}
use r_sandbox.Agent.Orchestrator.Laws.Mediation.{run_snapshot-IsMediated}
use r_sandbox.Agent.Orchestrator.Laws.Retry.{IsRetry, shadow_report-IsRetry}
use r_sandbox.Agent.Orchestrator.Laws.Coherence.{IsCoherent}
use r_sandbox.Agent.Orchestrator.Laws.Report.{run-IsCoherent}
use r_sandbox.Tests.Data.{policy_run, host, download, one_step}
use r_sandbox.Tests.Builder.{quiet_host}

-- Decimal texts, and a digest that tells the tested requests apart.
abbrev digits : ℕ → Text → ℕ
digits n [] = n
digits n (c ∷ t) = digits (n * 10 + (c - 48)) t

abbrev mixed : ℕ → List ℕ → ℕ
mixed n [] = n
mixed n (c ∷ m) = mixed ((n * 31 + c) % 2 ^ 61) m

abbrev zeros : Text
zeros = lit "00000000000000000000000000000000"

abbrev pub python : Python
python = record host {
  parse_float = λ t. some (exact (pos (digits 0 t)));
  sha256_hexdigest = λ m. take 32 (decimal (mixed 7 m) ++ zeros);
}

abbrev asked : CapabilityCategory → Text → Text → CapabilityRequest
asked c a t = record {
  request_id = [];
  category = c;
  action = a;
  target = t;
  justification = lit "needed";
  confidence = float one_float;
  risk = low;
  evidence = [];
}

abbrev needs : List CapabilityRequest
needs =
    asked filesystem (lit "read") (lit "<repository>")
    ∷ asked filesystem (lit "read") (lit "<output>")
    ∷ asked filesystem (lit "write") (lit "<output>")
    ∷ asked filesystem (lit "read") (lit "<temporary>")
    ∷ asked filesystem (lit "write") (lit "<temporary>")
    ∷ asked filesystem (lit "read") (lit "<shared-memory>")
    ∷ asked filesystem (lit "write") (lit "<shared-memory>")
    ∷ asked resource (lit "cpu") (lit "1")
    ∷ asked resource (lit "memory_mb") (lit "1024")
    ∷ asked resource (lit "pids") (lit "128")
    ∷ asked resource (lit "timeout_seconds") (lit "300")
    ∷ asked resource (lit "output_mb") (lit "1024")
    ∷ asked resource (lit "output_files") (lit "10000")
    ∷ asked resource (lit "temporary_mb") (lit "64")
    ∷ asked resource (lit "shared_memory_mb") (lit "16")
    ∷ asked process (lit "execute") (lit "python")
    ∷ []

abbrev identify : RepositoryProfile → List CapabilityRequest → Result (List CapabilityRequest)
identify p [] = ok []
identify p (r ∷ rs) = do
  id ← capability_request_id python p.root p.goal r p.snapshot_digest p.authorization_context
  rest ← identify p rs
  ok (record r { request_id = id } ∷ rest)

abbrev repository_profile : RepositoryProfile
repository_profile = record {
  root = lit "/tmp/snapshot";
  goal = lit "train";
  summary = lit "a model";
  files = lit "train.py" ∷ [];
  entrypoints =
      record {
        path = lit "train.py";
        argv = lit "python" ∷ lit "train.py" ∷ [];
        confidence = one_float;
        evidence = lit "a script";
      }
      ∷ [];
  dependencies = [];
  findings = [];
  warnings = [];
  snapshot_digest = [];
  snapshot_omissions = [];
  authorization_context = [];
}

abbrev success : ExecutionResult
success = record {
  status = succeeded;
  exit_code = some (pos 0);
  stdout = lit "done";
  stderr = [];
  duration_seconds = float one_float;
  events = [];
  command_preview = [];
}

abbrev empty_output : OutputManifest
empty_output = record { root = lit "/out/run-1"; existing = false; entries = [] }

abbrev pub services : Services
services = record {
  release = λ t s. ok tt;
  snapshot = λ t p. ok (record {
    root = lit "/tmp/snapshot";
    digest = lit "0123";
    warnings = [];
    omitted_paths = [];
  });
  understand = λ t root goal. ok repository_profile;
  infer = λ p e. identify p needs;
  uuid = λ t. lit "1";
  capture = λ t p. captured empty_output;
  execute = λ t spec. ok (result_value success);
  plan_only = λ t spec. ok (result_value success);
}

abbrev pub request : Text → Request
request mode = record {
  repository = lit "/repo";
  goal = Value.text (lit "train");
  output = lit "/out";
  mode = mode;
  image = lit "python:3.11-slim";
  approved_request_ids = [];
  network_allowlist = [];
  max_attempts = pos 2;
}

abbrev returned_report : Result AgentReport → AgentReport
returned_report (ok r) = r
returned_report (err e) = new_report succeeded [] []

abbrev shadow_run : Result AgentReport × Trace
shadow_run = run python quiet_host services (request (lit "shadow")) []

-- What a run computes with.
agent_run : Unit {0}
unfolding policy_run run build canonical_findings executables control_tokens audit_flags step_of
    continue ◌then_run◌ ask lift
agent_run = tt

runs : shadow_run ≡ (ok (returned_report shadow_run.0), shadow_run.1)
unfolding agent_run
runs = refl

run-IsCoherent_example : IsCoherent (returned_report shadow_run.0)
run-IsCoherent_example =
    run-IsCoherent python quiet_host services (request (lit "shadow")) [] shadow_run.1
      (returned_report shadow_run.0) runs

-- The run has started one container and succeeded.
succeeds : ((returned_report shadow_run.0).outcome ≡ succeeded) × (executions shadow_run.1 ≡ 1)
unfolding agent_run
succeeds = (refl, refl)

is_shadow : as_mode (lit "shadow") ≡ ok shadow
unfolding agent_run as_mode
is_shadow = refl

is_analyze : as_mode (lit "analyze") ≡ ok analyze
unfolding agent_run as_mode
is_analyze = refl

run-executions_example :
    executions shadow_run.1 ≤ executions [] + run_budget shadow (attempts_of (pos 2))
run-executions_example =
    run-executions python quiet_host services (request (lit "shadow")) shadow [] is_shadow

run-analyze_example :
    OnlySnapshot services [] (run python quiet_host services (request (lit "analyze")) []).1
run-analyze_example = run-analyze python quiet_host services (request (lit "analyze")) [] is_analyze

abbrev order : Order
order = record {
  repository = lit "/repo";
  goal = lit "train";
  execution_repository = lit "/tmp/snapshot";
  snapshot_digest = lit "0123";
  snapshot_warnings = [];
  snapshot_omissions = [];
  output = lit "/out";
  mode = shadow;
  image = lit "python:3.11-slim";
  approved_request_ids = [];
  network_allowlist = [];
  max_attempts = pos 2;
  authorization_context = [];
}

abbrev surveyed_of : Result Surveyed → Surveyed
surveyed_of (ok s) = s
surveyed_of (err e) = record {
  profile = repository_profile;
  environment = environment_plan repository_profile [];
  warnings = [];
  first_plan = one_step download;
  config = policy_config order false;
  first_authorization = record { decisions = [] };
  first_report = new_report succeeded [] [];
}

abbrev surveyed : Surveyed
surveyed = surveyed_of (survey python services order [])

surveys : survey python services order [] ≡ ok surveyed
unfolding agent_run
surveys = refl

run_snapshot-IsMediated_example :
    All
      (IsAnswered python order surveyed.config)
      (run_snapshot python quiet_host services order []).1
run_snapshot-IsMediated_example =
    run_snapshot-IsMediated python quiet_host services order surveyed surveys

-- A reasoner whose only request has a confidence above 1.
abbrev wild_services : Services
wild_services = record services {
  infer = λ p e. ok (record download { confidence = int (pos 2) } ∷ []);
}

abbrev wild : Surveyed
wild = surveyed_of (survey python wild_services order [])

surveys_wild : survey python wild_services order [] ≡ ok wild
unfolding agent_run
surveys_wild = refl

abbrev validated_of : Result ValidatedPlan → ValidatedPlan
validated_of (ok v) = v
validated_of (err e) = record { plan = one_step download; requests = [] }

abbrev wild_plan : ValidatedPlan
wild_plan = validated_of (validate_execution_plan python (plan_value wild.first_plan))

validates_wild :
    (validate_execution_plan python (plan_value wild.first_plan) ≡ ok wild_plan)
    × (any has_error wild_plan.requests ≡ true)
unfolding agent_run
validates_wild = (refl, refl)

run_snapshot-malformed_example :
    run_snapshot python quiet_host wild_services order [] ≡ (rejected_report python wild, [])
run_snapshot-malformed_example =
    run_snapshot-malformed python quiet_host wild_services order [] wild wild_plan surveys_wild
      validates_wild.0 validates_wild.1

-- The interpreter was not found, so that the other one is tried.
abbrev not_found : ExecutionResult
not_found = record success {
  status = failed;
  exit_code = some (pos 127);
  stderr = lit "python: not found";
}

abbrev first_loop : Loop
first_loop = record {
  current_plan = surveyed.first_plan;
  authorization = surveyed.first_authorization;
  current_report = surveyed.first_report;
}

abbrev next_of : Result Ending → Loop
next_of (ok (again l)) = l
next_of _ = first_loop

abbrev second_loop : Loop
second_loop =
    next_of (shadow_report python order surveyed false first_loop (result_value not_found))

retries :
    shadow_report python order surveyed false first_loop (result_value not_found)
    ≡ ok (again second_loop)
unfolding agent_run switch_justification
retries = refl

shadow_report-IsRetry_example :
    IsRetry python order surveyed first_loop second_loop × (false ≡ false)
shadow_report-IsRetry_example =
    shadow_report-IsRetry python order surveyed false first_loop second_loop
      (result_value not_found) retries
