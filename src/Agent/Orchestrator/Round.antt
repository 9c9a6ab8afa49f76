-- ===== src/Agent/Orchestrator/Round.antt =====
-- src/r_sandbox/agent/orchestrator.py: one round of the loop of `_run_snapshot`.
use r_sandbox.Prelude.{
  ℕ, zero, suc, ◌==◌, Bool, false, not, ◌||◌, Option, none, some, List, [], ◌∷◌, ◌++◌, Text, lit,
  length, is_empty, decimal, if◌then◌else◌, type_error, Result, ok, err, ◌>>=◌,
}
use r_sandbox.Prelude.Int.{ℤ, pos, integer_text}
use r_sandbox.Prelude.Float.{one_float}
use r_sandbox.Prelude.Paths.{join}
use r_sandbox.Python.{Python}
use r_sandbox.System.{executed, dry_ran, Run, lift, ◌then_run◌, Host}
use r_sandbox.Models.Enums.{AgentPhase, build, execute, monitor, reflect, report, is_planned}
use r_sandbox.Models.Records.{
  float, PlanStep, ExecutionPlan, Authorization, ExecutionResult, Reflection, pending,
}
use r_sandbox.Models.Report.{AgentReport, record_phase, note}
use r_sandbox.Models.Value.{Value, plan_value, step_value, authorization_value}
use r_sandbox.Models.Limits.{ResourceLimits}
use r_sandbox.Models.Sandbox.{SandboxSpec, sandbox_spec}
use r_sandbox.Models.Canonical.{canonical_execution_result}
use r_sandbox.Models.Canonical.Snapshot.{result_value}
use r_sandbox.Policy.Engine as Engine
use r_sandbox.Builder.Build as Build
use r_sandbox.Observe.Inspect.{inspect}
use r_sandbox.Observe.Replan as Replan
use r_sandbox.Agent.Orchestrator.Services.{Services, AgentMode, dry_run, Order}
use r_sandbox.Agent.Orchestrator.Parts.{required_authority_denied, same_plan}
use r_sandbox.Agent.Orchestrator.Survey.{Surveyed, assessed}

-- The variables that the loop changes.
pub record Loop : Type 0 where
  pub current_plan : ExecutionPlan
  pub authorization : Authorization
  pub current_report : AgentReport

-- How a round ends: by `return`, by `break`, or with a next round.
pub data Ending : Type 0 where
  returned : AgentReport → Ending
  stopped again : Loop → Ending

-- `ResourceLimits()`
unfoldable pub default_limits : ResourceLimits
default_limits = record {
  cpus = float one_float;
  memory_mb = pos 1024;
  pids = pos 128;
  timeout_seconds = pos 300;
  output_mb = pos 1024;
  output_files = pos 10000;
  temporary_mb = pos 64;
  shared_memory_mb = pos 16;
}

-- `self.observer.inspect(result)`
unfoldable pub inspected : Python → ExecutionResult → Result Reflection
unfolding inspect
inspected P r = inspect P 500 (result_value r)

-- `report.execution = result`, and what goes with it.
unfoldable pub with_execution : ExecutionResult → AgentReport → AgentReport
with_execution e r = record r {
  execution = some e;
  execution_history = r.execution_history ++ e ∷ [];
}

exit_text : Option ℤ → Text
exit_text none = lit "None"
exit_text (some n) = integer_text n

-- What follows a round.
unfoldable pub next_round : (Loop → Run Ending) → Ending → Run Ending
next_round more (again l) = more l
next_round more ending = lift (ok ending)

module _ (P : Python) (s : Surveyed) where
  -- The report on a dry run.
  unfoldable pub dry_report : Loop → Value → Result Ending
  unfolding canonical_execution_result assessed inspected with_execution record_phase note
  dry_report l raw = do
    e ← canonical_execution_result raw
    a ← assessed P s l.authorization (some e)
    reflection ← inspected P e
    let r = record (with_execution e l.current_report) {
      outcome = e.status;
      security_assessment = some a;
      reflections = l.current_report.reflections ++ reflection ∷ [];
    } in
        ok (
          returned (
            if is_planned e.status
            then record_phase report (lit "Sandbox plan generated without running code.") (
                note
                  (lit
                    "Dry-run mode generated an audit command but did not execute it. Its sanitized snapshot path is temporary; use the reproduction argv to create and verify a fresh snapshot before a real run.")
                  r)
            else record_phase report (lit "Sandbox plan failed runtime-enforceability validation.")
                (note (lit "Dry-run validation rejected a sandbox property; no code was executed.")
                  r)))

  -- The report behind an execution.
  unfoldable pub executed_report : Loop → ExecutionResult → Reflection → Result AgentReport
  unfolding assessed with_execution record_phase exit_text
  executed_report l e reflection = do
    a ← assessed P s l.authorization (some e)
    let r1 =
          record_phase monitor
            (lit "Observed "
              ++ (decimal (length e.events)
                  ++ (lit " runtime event(s); exit code was "
                      ++ (exit_text e.exit_code ++ lit "."))))
            (with_execution e l.current_report) in
        let r2 =
          record_phase reflect reflection.explanation
            (record r1 { reflections = r1.reflections ++ reflection ∷ [] }) in
        ok (record r2 { security_assessment = some a; outcome = e.status })

-- The decision on a candidate with its authorization.
unfoldable pub retry : Loop → Reflection → ExecutionPlan → Authorization → Ending
unfolding record_phase note pending required_authority_denied
retry l reflection candidate a =
    let r =
      record_phase AgentPhase.replan (join (lit "; ") reflection.plan_changes) l.current_report in
    if not (is_empty (pending a)) || required_authority_denied a
    then stopped (record l {
      current_report =
          note (lit "A retry was proposed but stopped at the authorization boundary.") r;
    })
    else again (record {
      current_plan = candidate;
      authorization = a;
      current_report = record r { plan = some candidate; authorization = some a };
    })

module _ (P : Python) (u : Order) (s : Surveyed) where
  -- From the candidate of the replanner.
  unfoldable pub try_candidate : Loop → Reflection → ExecutionPlan → Result Ending
  unfolding same_plan retry note Engine.authorize
  try_candidate l reflection candidate =
      if same_plan candidate l.current_plan
      then ok (
          stopped (record l {
            current_report =
                note
                  (lit
                    "Reflection found no deterministic, authority-preserving plan change; no identical retry was run.")
                  l.current_report;
          }))
      else do
        a ← Engine.authorize P (plan_value candidate) s.config
        ok (retry l reflection candidate a)

  -- The rest of a round behind the execution; `last` tells that no attempt is left.
  unfoldable pub shadow_report : Bool → Loop → Value → Result Ending
  unfolding canonical_execution_result inspected executed_report try_candidate Replan.replan
  shadow_report last l raw = do
    e ← canonical_execution_result raw
    reflection ← inspected P e
    r ← executed_report P s l e reflection
    if not reflection.should_retry || last
        then ok (stopped (record l { current_report = r }))
        else do
          candidate ←
              Replan.replan P l.current_plan reflection u.repository u.snapshot_digest
                u.authorization_context
          try_candidate (record l { current_report = r }) reflection candidate

-- The supervisors.
module _ (S : Services) where
  unfoldable pub run_sandbox : SandboxSpec → Run Value
  run_sandbox spec t = (S.execute t spec, executed spec ∷ t)

  unfoldable pub plan_sandbox : SandboxSpec → Run Value
  plan_sandbox spec t = (S.plan_only t spec, dry_ran spec ∷ t)

-- The report with the sandbox.
unfoldable pub built_report : Order → Bool → SandboxSpec → AgentReport → AgentReport
unfolding record_phase note
built_report u first spec r =
    let r1 = record r { sandbox = some spec } in
    let r2 =
      if first
      then note
          (lit
              "Only the fresh per-run artifact directory was mounted at /output; preexisting content under "
            ++ (u.output ++ lit " was not exposed."))
          r1
      else r1 in
    record_phase build
      (lit
        "Built a project-specific sandbox contract: repository read-only, output writable, host secrets absent, and network disabled unless enforced by a narrow adapter.")
      r2

-- The report when an execution starts.
unfoldable pub started_report : AgentReport → AgentReport
unfolding record_phase
started_report r = record_phase execute (lit "Started an explicit sandboxed shadow execution.") r

-- The parts of `_run_snapshot` that a round reads.
module _ (P : Python) (H : Host) (S : Services) (u : Order) (s : Surveyed) where
  -- The sandbox of the round.
  unfoldable pub sandbox_of : Text → Bool → PlanStep → Authorization → Run SandboxSpec
  unfolding default_limits sandbox_spec
  sandbox_of run_output first step a =
      Build.build P H u.execution_repository run_output (step_value step) (authorization_value a)
        u.image default_limits first
      then_run λ built. lift (
          sandbox_spec (record built {
            source_repository = u.repository;
            snapshot_digest = u.snapshot_digest;
          }))

  unfoldable pub in_mode : AgentMode → Bool → Loop → SandboxSpec → Run Ending
  unfolding run_sandbox plan_sandbox shadow_report dry_report started_report
  in_mode dry_run last l spec = plan_sandbox S spec then_run λ raw. lift (dry_report P s l raw)
  in_mode _ last l spec = run_sandbox S spec then_run λ raw.
      lift (
        shadow_report P u s last (record l { current_report = started_report l.current_report })
          raw)

  -- One round.
  unfoldable pub round : Text → (first last : Bool) → Loop → List PlanStep → Run Ending
  unfolding sandbox_of built_report in_mode
  round run_output first last l [] = lift (err (type_error (lit "tuple index out of range")))
  round run_output first last l (step ∷ steps) =
      sandbox_of run_output first step l.authorization then_run λ spec.
      in_mode u.mode last (record l { current_report = built_report u first spec l.current_report })
        spec

  -- The loop with so many attempts left.
  unfoldable pub rounds : Text → Bool → ℕ → Loop → Run Ending
  unfolding round next_round
  rounds run_output first zero l = lift (ok (stopped l))
  rounds run_output first (suc left) l =
      let more = rounds run_output false left in
      round run_output first (left == 0) l l.current_plan.steps then_run next_round more
