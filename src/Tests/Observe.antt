-- ===== src/Tests/Observe.antt =====
-- The observer and the replanner at concrete runs.
use r_sandbox.Prelude.{ℕ, ◌≡◌, refl, ◌⊎◌, has_infix, true, false, some, List, [], ◌∷◌, ok, lit, any}
use r_sandbox.Prelude.Int.{pos}
use r_sandbox.Models.Enums.{failed, succeeded, target_telemetry, AgentOutcome, process}
use r_sandbox.Models.Records.{
  int, CapabilityRequest, RuntimeEvent, ExecutionResult, ExecutionPlan, Reflection,
}
use r_sandbox.Observe.Classes.{success, command_or_config, classify, is_start, blocked_types}
use r_sandbox.Observe.Inspect.{inspect_canonical, reflect_on}
use r_sandbox.Observe.Replan.{
  replan, names_executable, other_executable, switch_justification, switched,
}
use r_sandbox.Observe.Reflect.{reflect, output_text}
use r_sandbox.Observe.Laws.{started-replan, IsSwitch, replan-IsSwitch}
use r_sandbox.Tests.Data.{policy_run, host, download, one_step}

observe_run : Unit {0}
unfolding policy_run classify blocked_types inspect_canonical replan names_executable
    other_executable switched
observe_run = tt

abbrev hook_event : RuntimeEvent
hook_event = record {
  event_type = lit "runtime";
  action = lit "audit_hook";
  target = lit "python";
  allowed = true;
  detail = [];
  source = target_telemetry;
}

abbrev run_of : AgentOutcome → ℕ → List RuntimeEvent → ExecutionResult
run_of status code es = record {
  status = status;
  exit_code = some (pos code);
  stdout = [];
  stderr = lit "command not found";
  duration_seconds = int (pos 1);
  events = es;
  command_preview = [];
}

succeeds : classify host (run_of succeeded 0 (hook_event ∷ [])) ≡ success
unfolding observe_run
succeeds = refl

starts : any is_start (hook_event ∷ []) ≡ true
unfolding observe_run
starts = refl

-- Exit code 127 is a command failure, but not once the target has started.
started-replan_example :
    replan host
      (one_step download)
      (inspect_canonical host 500 (run_of failed 127 (hook_event ∷ [])))
      (lit "/repo")
      []
      []
    ≡ ok (one_step download)
started-replan_example =
    started-replan host 500 (run_of failed 127 (hook_event ∷ [])) (one_step download) (lit "/repo")
      [] [] starts

unstarted_is_command : classify host (run_of failed 127 []) ≡ command_or_config
unfolding observe_run
unstarted_is_command = refl

abbrev interpreter : CapabilityRequest
interpreter = record download { category = process; action = lit "execute"; target = lit "python" }

abbrev retry : Reflection
retry = reflect_on command_or_config [] []

abbrev switched_plan : ExecutionPlan
switched_plan =
    record (one_step
      (record interpreter { target = lit "python3"; justification = switch_justification })) {
        steps =
            record {
              step_id = lit "execute-entrypoint-2";
              purpose = lit "train";
              argv = lit "python3" ∷ lit "train.py" ∷ [];
              cwd = lit "/workspace";
              capabilities =
                  record interpreter {
                    target = lit "python3";
                    justification = switch_justification;
                  }
                  ∷ [];
            }
            ∷ [];
        attempt = pos 2;
      }

replans : replan host (one_step interpreter) retry (lit "/repo") [] [] ≡ ok switched_plan
unfolding observe_run switch_justification
replans = refl

replan-IsSwitch_example :
    (switched_plan ≡ one_step interpreter)
    ⊎ IsSwitch host (lit "/repo") [] [] (one_step interpreter) switched_plan
replan-IsSwitch_example =
    replan-IsSwitch host (one_step interpreter) switched_plan retry (lit "/repo") [] [] replans

-- Without the name of the interpreter in the output there is no retry.
unnamed : (reflect host (run_of failed 127 [])).should_retry ≡ false
unfolding observe_run reflect output_text has_infix
unnamed = refl

abbrev pythonless : ExecutionResult
pythonless = record (run_of failed 127 []) { stderr = lit "python: command not found" }

retries : (reflect host pythonless).should_retry ≡ true
unfolding observe_run reflect output_text has_infix
retries = refl
