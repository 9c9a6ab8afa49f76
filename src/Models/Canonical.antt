-- ===== src/Models/Canonical.antt =====
-- src/r_sandbox/models.py: the constructors' checks of runtime events and execution results, and the
-- copies that the trust boundaries take (`canonical_execution_result`, `canonical_findings`).
pub mod Snapshot
use r_sandbox.Prelude.{
  ℕ, ◌^◌, Bool, true, false, not, ◌&&◌, ◌||◌, Option, none, some, List, [], ◌∷◌, ◌++◌, Text, lit,
  leb, ltb, if◌then◌else◌, length, is_empty, has_char, Raised, value_error, type_error, Result, ok,
  err, ◌>>=◌, ◌>>◌, raise_if,
}
use r_sandbox.Prelude.Int.{ℤ, pos, negsuc}
use r_sandbox.Prelude.Float.{Float, is_finite, le_float, zero_float, float_of_int}
use r_sandbox.Models.Enums.{
  AgentOutcome, succeeded, failed, RuntimeEvidenceSource, is_succeeded, is_failed, outcome_value,
}
use r_sandbox.Models.Records.{Number, bool, int, float, RuntimeEvent, ExecutionResult}
use r_sandbox.Models.Value.{Value, items}

-- One entry of the loop over the text fields of `RuntimeEvent.__post_init__`.
event_text : Value → Text → ℕ → Bool → Result Text
event_text (Value.text t) name maximum allow_empty = do
  raise_if (not allow_empty && is_empty t)
      (value_error (lit "runtime event " ++ name ++ lit " must not be empty"))
  raise_if (ltb maximum (length t) || has_char 0 t)
      (value_error (lit "runtime event " ++ name ++ lit " is not bounded text"))
  ok t
event_text _ name maximum allow_empty =
    err (type_error (lit "runtime event " ++ name ++ lit " must be a string"))

as_bool : Value → Raised → Result Bool
as_bool (Value.num (bool b)) e = ok b
as_bool _ e = err e

as_source : Value → Raised → Result RuntimeEvidenceSource
as_source (Value.source s) e = ok s
as_source _ e = err e

-- `RuntimeEvent(...)` from the fields of an exact `RuntimeEvent`.
unfoldable pub canonical_event : Value → Result RuntimeEvent
unfolding event_text as_bool as_source
canonical_event
      (Value.runtime_event raw_type raw_action raw_target raw_allowed raw_detail raw_source) =
    do
      t ← event_text raw_type (lit "event_type") 128 false
      a ← event_text raw_action (lit "action") 128 false
      g ← event_text raw_target (lit "target") 8192 false
      d ← event_text raw_detail (lit "detail") 16384 true
      b ← as_bool raw_allowed (type_error (lit "runtime event allowed must be a boolean"))
      s ←
          as_source raw_source
            (type_error (lit "runtime event source must be a RuntimeEvidenceSource"))
      ok (record { event_type = t; action = a; target = g; allowed = b; detail = d; source = s })
canonical_event _ = err (type_error (lit "execution result contains a non-exact runtime event"))

unfoldable pub canonical_events : List Value → Result (List RuntimeEvent)
unfolding canonical_event
canonical_events [] = ok []
canonical_events (v ∷ vs) = do e ← canonical_event v; es ← canonical_events vs; ok (e ∷ es)

as_outcome : Value → Result AgentOutcome
as_outcome (Value.outcome o) = ok o
as_outcome _ = err (type_error (lit "execution status must be an AgentOutcome"))

exit_code_error : Raised
exit_code_error = type_error (lit "execution exit_code must be a bounded integer or null")

-- `-(2**31) <= n < 2**31`
is_exit_code : ℤ → Bool
is_exit_code (pos n) = ltb n (2 ^ 31)
is_exit_code (negsuc n) = ltb n (2 ^ 31)

as_exit_code : Value → Result (Option ℤ)
unfolding exit_code_error is_exit_code
as_exit_code Value.nothing = ok none
as_exit_code (Value.num (int n)) = if is_exit_code n then ok (some n) else err exit_code_error
as_exit_code _ = err exit_code_error

abbrev pub is_zero_exit : Option ℤ → Bool
is_zero_exit none = false
is_zero_exit (some (pos n)) = leb n 0
is_zero_exit (some (negsuc n)) = false

abbrev pub has_exit : Option ℤ → Bool
has_exit none = false
has_exit (some n) = true

-- The outcomes of runs in which no process ended.
abbrev pub is_processless : AgentOutcome → Bool
is_processless succeeded = false
is_processless failed = false
is_processless _ = true

finite_duration : Option Float → Bool
finite_duration none = false
finite_duration (some f) = is_finite f && le_float zero_float f

unfoldable pub valid_duration : Number → Bool
unfolding finite_duration
valid_duration (bool b) = false
valid_duration (int n) = finite_duration (float_of_int n)
valid_duration (float f) = finite_duration (some f)

duration_error : Raised
duration_error = type_error (lit "execution duration must be a finite non-negative number")

as_duration : Value → Result Number
unfolding valid_duration duration_error
as_duration (Value.num n) = if valid_duration n then ok n else err duration_error
as_duration _ = err duration_error

as_stream : Value → Text → Result Text
as_stream (Value.text t) name = do
  raise_if (ltb 1100000 (length t))
      (value_error (lit "execution " ++ name ++ lit " exceeds the report boundary"))
  ok t
as_stream _ name = err (type_error (lit "execution " ++ name ++ lit " must be a string"))

argument_error : Raised
argument_error = type_error (lit "execution command_preview must contain bounded argv strings")

as_argument : Value → Result Text
unfolding argument_error
as_argument (Value.text t) = do
  raise_if (is_empty t || (ltb 8192 (length t) || has_char 0 t)) argument_error
  ok t
as_argument _ = err argument_error

as_arguments : List Value → Result (List Text)
unfolding as_argument
as_arguments [] = ok []
as_arguments (v ∷ vs) = do t ← as_argument v; ts ← as_arguments vs; ok (t ∷ ts)

as_values : Value → Raised → Result (List Value)
as_values (Value.tuple vs) e = ok (items vs)
as_values _ e = err e

-- `canonical_execution_result`: the events first, then `ExecutionResult.__post_init__`.
unfoldable pub canonical_execution_result : Value → Result ExecutionResult
unfolding canonical_events as_outcome as_exit_code as_duration as_stream as_arguments as_values
canonical_execution_result
      (Value.execution_result raw_status raw_exit raw_stdout raw_stderr raw_duration raw_events
        raw_preview) =
    do
      vs ←
          as_values raw_events
            (type_error (lit "execution result contains a non-exact runtime event"))
      es ← canonical_events vs
      status ← as_outcome raw_status
      exit_code ← as_exit_code raw_exit
      raise_if (is_succeeded status && not (is_zero_exit exit_code))
          (value_error (lit "a succeeded execution must have exit_code 0"))
      raise_if (is_failed status && is_zero_exit exit_code)
          (value_error (lit "a failed execution cannot have exit_code 0"))
      raise_if (is_processless status && has_exit exit_code) (
          value_error (outcome_value status ++ lit " execution must not carry a process exit code"))
      duration ← as_duration raw_duration
      stdout ← as_stream raw_stdout (lit "stdout")
      stderr ← as_stream raw_stderr (lit "stderr")
      raise_if (ltb 10100 (length es)) (type_error (lit "execution events must be a bounded tuple"))
      previews ←
          as_values raw_preview
            (type_error (lit "execution command_preview must be a bounded tuple"))
      raise_if (ltb 1024 (length previews))
          (type_error (lit "execution command_preview must be a bounded tuple"))
      preview ← as_arguments previews
      ok (record {
        status = status;
        exit_code = exit_code;
        stdout = stdout;
        stderr = stderr;
        duration_seconds = duration;
        events = es;
        command_preview = preview;
      })
canonical_execution_result _ =
    err (type_error (lit "execution result must use the exact ExecutionResult type"))
