-- ===== src/Agent/Orchestrator/Run.antt =====
-- src/r_sandbox/agent/orchestrator.py: the dynamic part of `_run_snapshot`, and `run`.
use r_sandbox.Prelude.{
  true, Option, none, some, List, [], ◌∷◌, ◌++◌, Text, lit, is_empty, if◌then◌else◌, type_error,
  Result, ok, err, ◌>>=◌,
}
use r_sandbox.Prelude.Paths.{posix_path, path_text}
use r_sandbox.Python.{Python}
use r_sandbox.System.{inventoried, Run, lift, ask, ◌then_run◌, Host}
use r_sandbox.Models.Enums.{reflect, report, failed}
use r_sandbox.Models.Records.{ExecutionResult}
use r_sandbox.Models.Report.{AgentReport, record_phase, note}
use r_sandbox.Models.Canonical.{canonical_execution_result}
use r_sandbox.Models.Canonical.Snapshot.{result_value}
use r_sandbox.Builder.Checks.{◌slash◌}
use r_sandbox.Observe.Manifest.{OutputManifest, ManifestDiff, changed, diff_output_manifests}
use r_sandbox.Agent.Orchestrator.Services.{
  AgentMode, analyze, dry_run, shadow, Inventory, captured, unsafe_output, Services, Order,
}
use r_sandbox.Agent.Orchestrator.Parts.{
  malformed_proposal_rejected, manifest_event, manifest_failure_result, attempts_of,
}
use r_sandbox.Agent.Orchestrator.Survey.{Surveyed, assessed, survey, rejected_report, static_report}
use r_sandbox.Agent.Orchestrator.Round.{
  Loop, Ending, returned, stopped, again, inspected, with_execution, rounds,
}

-- `capture_output_manifest`
unfoldable pub capture : Services → Text → Run Inventory
capture S path t = (ok (S.capture t path), inventoried path ∷ t)

-- The end of a report with no dynamic run.
unfoldable pub static_only : Text → Text → AgentReport → AgentReport
unfolding record_phase note
static_only remark message r = record_phase report message (note remark r)

-- The `ExecutionResult` constructor's checks, on fields of the declared types.
unfoldable pub checked_result : ExecutionResult → Result ExecutionResult
unfolding canonical_execution_result
checked_result r = canonical_execution_result (result_value r)

-- `execution_history[-1] = execution`
unfoldable pub replace_last : ExecutionResult → List ExecutionResult → List ExecutionResult
replace_last e [] = []
replace_last e (x ∷ []) = e ∷ []
replace_last e (x ∷ y ∷ ys) = x ∷ replace_last e (y ∷ ys)

-- `replace(report.execution, status=FAILED, exit_code=None, events=(*events, manifest_event))`
unfoldable pub downgraded : Inventory → ExecutionResult → ExecutionResult
unfolding manifest_event
downgraded i e = record e {
  status = failed;
  exit_code = none;
  events = e.events ++ manifest_event i ∷ [];
}

module _ (P : Python) (s : Surveyed) where
  -- The report when the first manifest fails.
  unfoldable pub uninventoried_report : Inventory → AgentReport → Result AgentReport
  unfolding checked_result manifest_failure_result with_execution inspected assessed record_phase
      note
  uninventoried_report i r = do
    e ← checked_result (manifest_failure_result i true)
    reflection ← inspected P e
    a ← assessed P s s.first_authorization (some e)
    ok (
        record_phase report reflection.explanation (
          note
            (lit
              "Shadow execution was not started because the initial output directory could not be inventoried within safety limits.")
            (record (with_execution e r) {
              outcome = e.status;
              reflections = r.reflections ++ reflection ∷ [];
              security_assessment = some a;
            })))

  -- The handler of the last manifest.
  unfoldable pub downgraded_report : Inventory → Loop → Option ExecutionResult → Result AgentReport
  unfolding checked_result downgraded replace_last inspected assessed record_phase note
  downgraded_report i l none = err (type_error (lit "report.execution is not None"))
  downgraded_report i l (some before) = do
    e ← checked_result (downgraded i before)
    reflection ← inspected P e
    a ← assessed P s l.authorization (some e)
    let r = l.current_report in
        ok (
          record_phase reflect reflection.explanation (
            note
              (lit
                "Output changes could not be completely inventoried; the verdict was downgraded rather than dropping the report.")
              (record r {
                execution = some e;
                execution_history = replace_last e r.execution_history;
                outcome = failed;
                reflections = r.reflections ++ reflection ∷ [];
                security_assessment = some a;
              })))

  -- The comparison of the manifests, or its ValueError.
  unfoldable pub compare : Loop → Result ManifestDiff → Result AgentReport
  unfolding changed downgraded_report
  compare l (ok d) = ok (record l.current_report { files_changed = changed d })
  compare l (err e) =
      downgraded_report (unsafe_output (lit "ValueError")) l l.current_report.execution

  -- The `try` block behind the loop.
  unfoldable pub compared_report : OutputManifest → Loop → Inventory → Result AgentReport
  unfolding diff_output_manifests compare downgraded_report
  compared_report before l (captured after) = compare l (diff_output_manifests before after)
  compared_report before l i = downgraded_report i l l.current_report.execution

  -- What follows the loop.
  unfoldable pub finished_report : Option OutputManifest → Loop → Inventory → Result AgentReport
  unfolding compared_report downgraded_report record_phase
  finished_report none l (captured after) = err (type_error (lit "before_manifest is not None"))
  finished_report none l i = do
    r ← downgraded_report i l l.current_report.execution
    ok (record_phase report (lit "Combined static and shadow-execution evidence into a verdict.") r)
  finished_report (some before) l i = do
    r ← compared_report before l i
    ok (record_phase report (lit "Combined static and shadow-execution evidence into a verdict.") r)

module _ (P : Python) (H : Host) (S : Services) (u : Order) (s : Surveyed) where
  unfoldable pub after_loop : Text → Option OutputManifest → Ending → Run AgentReport
  unfolding capture finished_report
  after_loop run_output before (returned r) = lift (ok r)
  after_loop run_output before (stopped l) =
      capture S run_output then_run λ i. lift (finished_report P s before l i)
  after_loop run_output before (again l) =
      capture S run_output then_run λ i. lift (finished_report P s before l i)

  -- The loop and what follows it.
  unfoldable pub attempt : Text → Option OutputManifest → AgentReport → Run AgentReport
  unfolding rounds attempts_of after_loop
  attempt run_output before r =
      rounds P H S u s run_output true (attempts_of u.max_attempts) (record {
        current_plan = s.first_plan;
        authorization = s.first_authorization;
        current_report = r;
      })
      then_run after_loop run_output before

  unfoldable pub start_shadow : Text → AgentReport → Inventory → Run AgentReport
  unfolding attempt uninventoried_report
  start_shadow run_output r (captured m) = attempt run_output (some m) r
  start_shadow run_output r i = lift (uninventoried_report P s i r)

  -- From the choice of the output directory.
  unfoldable pub start : AgentMode → Text → AgentReport → Run AgentReport
  unfolding start_shadow attempt capture
  start shadow run_output r = capture S run_output then_run start_shadow run_output r
  start _ run_output r = attempt run_output none r

  -- `output / f"run-{uuid4().hex}"`
  unfoldable pub run_directory : Text → Text
  unfolding ◌slash◌ posix_path path_text
  run_directory id = path_text (posix_path u.output slash posix_path (lit "run-" ++ id))

  -- The choice by the mode.
  unfoldable pub by_mode : AgentMode → AgentReport → Run AgentReport
  unfolding static_only run_directory start
  by_mode analyze r = lift (
      ok (
        static_only (lit "Analysis mode never executes repository code.")
          (lit "Static preflight completed; shadow execution remains pending.") r))
  by_mode dry_run r = ask (λ t. ok (S.uuid t)) then_run λ id. start dry_run (run_directory id) r
  by_mode shadow r = ask (λ t. ok (S.uuid t)) then_run λ id. start shadow (run_directory id) r

  -- What follows the static assessment.
  unfoldable pub dynamic : AgentReport → Run AgentReport
  unfolding static_only by_mode
  dynamic r =
      if is_empty s.first_plan.steps
      then lift (
          ok (
            static_only
              (lit "No safe entrypoint was inferred, so dynamic preflight was not attempted.")
              (lit "Static-only security assessment completed.") r))
      else by_mode u.mode r

  -- What follows the authorization.
  unfoldable pub authorized : Run AgentReport
  unfolding malformed_proposal_rejected rejected_report static_report dynamic
  authorized =
      if malformed_proposal_rejected s.first_authorization
      then lift (rejected_report P s)
      else ask (λ t. static_report P u s) then_run dynamic

-- `_run_snapshot`
unfoldable pub run_snapshot : Python → Host → Services → Order → Run AgentReport
unfolding survey authorized
run_snapshot P H S u = ask (survey P S u) then_run authorized P H S u
