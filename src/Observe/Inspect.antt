-- ===== src/Observe/Inspect.antt =====
-- src/r_sandbox/tools/runtime_observer/observer.py: `inspect`, with the texts of its reflection.
use r_sandbox.Prelude.{
  ℕ, ◌-◌, Bool, true, false, not, ◌&&◌, Option, none, some, List, [], ◌∷◌, ◌++◌, map, Text, lit,
  if◌then◌else◌, ltb, length, take, is_empty, filter, strip, decimal, replace_char, Result, ok,
  ◌>>=◌,
}
use r_sandbox.Prelude.Int.{ℤ, integer_text}
use r_sandbox.Prelude.Paths.{join}
use r_sandbox.Python.{Python}
use r_sandbox.Models.Enums.{is_target_telemetry, is_supervisor}
use r_sandbox.Models.Records.{RuntimeEvent, ExecutionResult, Reflection}
use r_sandbox.Models.Value.{Value}
use r_sandbox.Models.Canonical.{canonical_execution_result}
use r_sandbox.Observe.Classes.{
  FailureClass, dependency_or_version, permission, command_or_config, resource, runtime_unavailable,
  success, dry_run, unknown_failure, blocked_behavior, incomplete_observation, class_text, classify,
}

exit_summary : Option ℤ → Text
unfolding integer_text
exit_summary none = lit "exit_code=not_started"
exit_summary (some n) = lit "exit_code=" ++ integer_text n

rendered : RuntimeEvent → Text
rendered e =
    if is_target_telemetry e.source
    then lit "target_telemetry:reported_event:<target-controlled-content-omitted>"
    else e.event_type
      ++ lit ":"
      ++ e.action
      ++ lit ":"
      ++ take 160 (replace_char 10 32 (replace_char 13 32 e.target))

more_suffix : ℕ → Text
more_suffix n = if ltb 5 n then lit ", +" ++ decimal (n - 5) ++ lit " more" else []

-- `_security_context`
unfoldable pub security_context : ExecutionResult → Text
unfolding exit_summary rendered more_suffix
security_context r =
    let blocked = filter (λ e. not e.allowed) r.events in
    if is_empty blocked
    then exit_summary r.exit_code ++ lit "; blocked_attempts=0."
    else exit_summary r.exit_code
      ++ lit "; blocked_attempts="
      ++ decimal (length blocked)
      ++ lit " ["
      ++ join (lit "; ") (map rendered (take 5 blocked))
      ++ more_suffix (length blocked)
      ++ lit "]."

last_text : List Text → Option Text
last_text [] = none
last_text (t ∷ []) = some t
last_text (t ∷ u ∷ ts) = last_text (u ∷ ts)

shortened : ℕ → Text → Text
shortened limit t = if ltb limit (length t) then take (limit - 3) t ++ lit "..." else t

exit_detail : Option ℤ → Text
unfolding integer_text
exit_detail none = []
exit_detail (some n) = lit "Process exited with code " ++ integer_text n ++ lit "."

supervisor_details : List RuntimeEvent → List Text
supervisor_details es =
    map (λ e. strip e.detail)
      (filter (λ e. is_supervisor e.source && not (is_empty (strip e.detail))) es)

chosen_detail : ℕ → Option ℤ → Option Text → Text
unfolding shortened exit_detail
chosen_detail limit exit_code (some t) = shortened limit t
chosen_detail limit exit_code none = exit_detail exit_code

-- `_detail`, with the observer's `explanation_limit`.
unfoldable pub detail_of : ℕ → ExecutionResult → Text
unfolding last_text supervisor_details chosen_detail
detail_of limit r =
    if not (is_empty r.stderr)
    then lit "Target stderr was captured internally and omitted from the report (characters="
      ++ decimal (length r.stderr)
      ++ lit ")."
    else chosen_detail limit r.exit_code (last_text (supervisor_details r.events))

reflection : FailureClass → Text → Bool → List Text → Reflection
unfolding class_text
reflection c explanation retry changes = record {
  classification = class_text c;
  explanation = explanation;
  should_retry = retry;
  plan_changes = changes;
}

with_parts : Text → Text → Text → Text
with_parts opening context detail = strip (opening ++ context ++ lit " " ++ detail)

-- The ladder of `inspect` over the class of the run.
unfoldable pub reflect_on : FailureClass → (context detail : Text) → Reflection
unfolding reflection with_parts
reflect_on success context detail =
    reflection success (strip (lit "Sandbox execution completed successfully. " ++ context)) false
      []
reflect_on dry_run context detail =
    reflection dry_run (lit "Execution was previewed; no repository code was run.") false []
reflect_on blocked_behavior context detail =
    reflection blocked_behavior
      (with_parts (lit "Shadow execution reached behavior blocked by the sandbox. ") context detail)
      false
      (lit
          "Treat the blocked attempts as security evidence; do not grant the capability automatically."
        ∷ [])
reflect_on incomplete_observation context detail =
    reflection incomplete_observation
      (with_parts (lit "Shadow execution finished without trustworthy dynamic telemetry. ") context
        detail)
      false
      (lit "Restore mandatory runtime instrumentation before making a safety assessment." ∷ [])
reflect_on runtime_unavailable context detail =
    reflection runtime_unavailable
      (with_parts (lit "The isolated runtime is unavailable. ") context detail) false
      (lit "Install or start the approved container runtime, then create a new run." ∷ [])
reflect_on permission context detail =
    reflection permission
      (with_parts (lit "The sandbox or policy denied a required operation. ") context detail) false
      (lit
          "Identify the exact missing capability and send it through policy review; do not broaden access automatically."
        ∷ [])
reflect_on dependency_or_version context detail =
    reflection dependency_or_version
      (with_parts (lit "A dependency or runtime version is incompatible or missing. ") context
        detail)
      true (lit "Pin or provide the dependency in a reviewed sandbox image before retrying." ∷ [])
reflect_on command_or_config context detail =
    reflection command_or_config
      (with_parts (lit "The entrypoint, arguments, path, or configuration appear invalid. ") context
        detail)
      true
      (lit
          "Re-check repository documentation and revise argv or configuration without expanding permissions."
        ∷ [])
reflect_on resource context detail =
    reflection resource (with_parts (lit "Execution reached a resource boundary. ") context detail)
      true
      (lit
          "Reduce the workload first; request a narrowly scoped limit change only when evidence justifies it."
        ∷ [])
reflect_on unknown_failure context detail =
    reflection unknown_failure
      (with_parts (lit "Execution failed for an unclassified reason. ") context detail) false
      (lit "Collect additional sandbox-only diagnostics before retrying." ∷ [])

-- `inspect` on a canonical result.
unfoldable pub inspect_canonical : Python → ℕ → ExecutionResult → Reflection
unfolding reflect_on classify security_context detail_of
inspect_canonical P limit r = reflect_on (classify P r) (security_context r) (detail_of limit r)

-- `RuntimeObserver.inspect`
unfoldable pub inspect : Python → ℕ → Value → Result Reflection
unfolding inspect_canonical
inspect P limit raw = do r ← canonical_execution_result raw; ok (inspect_canonical P limit r)
