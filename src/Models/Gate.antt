-- ===== src/Models/Gate.antt =====
-- src/r_sandbox/models.py: the checks on a report before it is serialized, and the result of its gate.
pub mod Laws
use r_sandbox.Prelude.{
  ℕ, Bool, true, false, not, ◌&&◌, ◌||◌, Option, none, some, List, [], ◌∷◌, ◌++◌, map, Text, lit,
  leb, ltb, if◌then◌else◌, length, is_empty, any, same, same_texts, has_char, value_error,
  type_error, Result, ok, err, ◌>>=◌, ◌>>◌, raise_if,
}
use r_sandbox.Prelude.Int.{ℤ, eqb_ℤ}
use r_sandbox.Models.Enums.{
  AgentOutcome, succeeded, failed, runtime_unavailable, SecurityVerdict, safe, inconclusive,
  is_safe, outcome_value,
}
use r_sandbox.Models.Records.{RuntimeEvent, ExecutionResult, SecurityAssessment, Finding, Evidence}
use r_sandbox.Models.Report.{AgentReport}
use r_sandbox.Models.Value.{Value, values, evidence_value, finding_value}
use r_sandbox.Models.Canonical.{canonical_execution_result, canonical_events}
use r_sandbox.Models.Canonical.Snapshot.{event_value, result_value}
use r_sandbox.Models.Equality.{same_result}
use r_sandbox.Models.Findings.{canonical_findings}

-- `security_gate_result` of `AgentReport.to_dict`.
verdict_gate : SecurityVerdict → Text
verdict_gate safe = lit "pass"
verdict_gate inconclusive = lit "inconclusive"
verdict_gate _ = lit "fail"

unfoldable pub gate_result : Option SecurityAssessment → Text
unfolding verdict_gate
gate_result none = lit "not_evaluated"
gate_result (some a) = verdict_gate a.verdict

-- The outcomes that need an execution.
unfoldable pub is_process_outcome : AgentOutcome → Bool
is_process_outcome succeeded = true
is_process_outcome failed = true
is_process_outcome runtime_unavailable = true
is_process_outcome _ = false

unfoldable pub safe_assessment : Option SecurityAssessment → Bool
safe_assessment none = false
safe_assessment (some a) = is_safe a.verdict

bad_reason : Text → Bool
bad_reason t = ltb 32768 (length t) || has_char 0 t

-- `canonical_security_assessment`, on fields of the declared types.
unfoldable pub canonical_security_assessment : SecurityAssessment → Result SecurityAssessment
unfolding bad_reason canonical_findings canonical_events
canonical_security_assessment a = do
  raise_if (ltb 100 a.risk_score)
      (type_error (lit "security assessment risk_score must be an integer in 0..100"))
  raise_if (is_empty a.summary || ltb 32768 (length a.summary))
      (type_error (lit "security assessment summary must be exact bounded text"))
  raise_if (ltb 10000 (length a.reasons) || any bad_reason a.reasons)
      (type_error (lit "security assessment reasons must be bounded exact text"))
  fs ← canonical_findings (Value.tuple (values (map finding_value a.static_findings)))
  raise_if (ltb 10100 (length a.runtime_events))
      (type_error (lit "assessment runtime events must be a bounded exact tuple"))
  es ← canonical_events (map event_value a.runtime_events)
  ok (record a { static_findings = fs; runtime_events = es })

unbounded_field : Text → Bool
unbounded_field t = is_empty t || (ltb 32768 (length t) || has_char 0 t)

canonical_history : List ExecutionResult → Result (List ExecutionResult)
unfolding canonical_execution_result
canonical_history [] = ok []
canonical_history (r ∷ rs) = do
  e ← canonical_execution_result (result_value r)
  es ← canonical_history rs
  ok (e ∷ es)

canonical_execution : Option ExecutionResult → Result (Option ExecutionResult)
unfolding canonical_execution_result
canonical_execution none = ok none
canonical_execution (some r) = do e ← canonical_execution_result (result_value r); ok (some e)

canonical_assessment : Option SecurityAssessment → Result (Option SecurityAssessment)
unfolding canonical_security_assessment
canonical_assessment none = ok none
canonical_assessment (some a) = do x ← canonical_security_assessment a; ok (some x)

unfoldable pub last_is : (ExecutionResult → Bool) → List ExecutionResult → Bool
last_is p [] = false
last_is p (r ∷ []) = p r
last_is p (r ∷ q ∷ rs) = last_is p (q ∷ rs)

-- The execution, its history and the outcome against each other.
unfoldable pub require_coherent :
    AgentOutcome → Option ExecutionResult → List ExecutionResult → Result (Unit {0})
unfolding is_process_outcome last_is same_result
require_coherent outcome none history = do
  raise_if (not (is_empty history))
      (value_error (lit "report execution_history must be empty when execution is absent"))
  raise_if (is_process_outcome outcome)
      (value_error (lit "terminal process outcomes require a final execution result"))
require_coherent outcome (some e) history = do
  raise_if (is_empty history)
      (value_error (lit "report execution requires a non-empty execution_history"))
  raise_if (not (last_is (λ r. same_result r e) history))
      (value_error (lit "report execution must equal the final execution_history result"))
  raise_if (not (same (outcome_value outcome) (outcome_value e.status)))
      (value_error (lit "report outcome must match the final execution status"))

-- `canonical_agent_report`, on fields of the declared types.
unfoldable pub canonical_agent_report : AgentReport → Result AgentReport
unfolding unbounded_field canonical_history canonical_execution canonical_assessment safe_assessment
    require_coherent
canonical_agent_report r = do
  raise_if (unbounded_field r.goal) (type_error (lit "report goal must be exact bounded text"))
  raise_if (unbounded_field r.repository)
      (type_error (lit "report repository must be exact bounded text"))
  execution ← canonical_execution r.execution
  raise_if (ltb 1000 (length r.execution_history))
      (type_error (lit "report execution_history must be a bounded exact list"))
  history ← canonical_history r.execution_history
  assessment ← canonical_assessment r.security_assessment
  raise_if (safe_assessment assessment)
      (value_error (lit "SAFE reports require an unavailable typed coverage attestation"))
  require_coherent r.outcome execution history
  ok (record r {
    execution = execution;
    execution_history = history;
    security_assessment = assessment;
  })
