-- ===== src/Assess/Assessor.antt =====
-- src/r_sandbox/agent/security_assessor.py: the score, the reasons, the verdict, and `assess`.
use r_sandbox.Prelude.{
  when, ℕ, ◌+◌, ◌*◌, Bool, false, not, ◌&&◌, ◌||◌, Option, none, some, List, ◌++◌, Text, lit,
  if◌then◌else◌, leb, ltb, decimal, Result, ok, ◌>>=◌,
}
use Prim.Native.Nat.{min}
use r_sandbox.Python.{Python}
use r_sandbox.Models.Enums.{SecurityVerdict, safe, review, unsafe, inconclusive}
use r_sandbox.Models.Records.{Finding, Authorization, ExecutionResult, SecurityAssessment}
use r_sandbox.Models.Value.{Value}
use r_sandbox.Models.Canonical.{canonical_execution_result}
use r_sandbox.Models.Findings.{canonical_findings}
use r_sandbox.Policy.Plan.{canonical_authorization}
use r_sandbox.Assess.Signals.{Signals, gather, events_of}

-- `score = min(100, score + n)` under a test.
unfoldable pub raised_by : Bool → ℕ → ℕ → ℕ
raised_by test n score = if test then min 100 (score + n) else score

unfoldable pub base_score : Signals → ℕ
base_score s = min 100 (s.weights + min 40 (15 * s.blocked))

unfoldable pub risk_score : Signals → ℕ
unfolding raised_by base_score
risk_score s =
    raised_by s.generic_violation 10
      (raised_by s.target_danger 10 (raised_by s.trusted_danger 30 (base_score s)))

-- `independently_observed`: no attestation exists yet.
abbrev pub independently_observed : Bool
independently_observed = false

abbrev positive : ℕ → Bool
positive n = ltb 0 n

unfoldable pub reasons : Signals → List Text
unfolding when
reasons s =
    when (positive s.blocked)
      (lit "Shadow execution recorded " ++ decimal s.blocked ++ lit " blocked project behavior(s).")
    ++ when (positive s.denied) (
        lit "Static analysis found "
        ++ decimal s.denied
        ++ lit " behavior(s) outside the minimum-authority contract.")
    ++ when s.critical (lit "At least one critical secret or exfiltration indicator was found.")
    ++ when (not s.critical && s.high) (lit "At least one high-risk behavior requires review.")
    ++ when (positive s.violations) (
        lit "Runtime evidence recorded "
        ++ decimal s.violations
        ++ lit " completed behavior(s) outside the authorized contract.")
    ++ when s.trusted_danger
        (lit "Independent runtime evidence recorded a high-impact attempted or completed behavior.")
    ++ when s.target_danger (
        lit
          "Target-controlled telemetry reported high-impact behavior; it is review evidence, not an independently attested unsafe verdict.")
    ++ when s.generic_violation (
        lit
          "Independent runtime evidence recorded a completed, lower-impact behavior outside the authorized contract.")
    ++ when (not s.generic_violation && (s.target_violation && not s.target_danger)) (
        lit
          "Target-controlled telemetry reported behavior outside the contract; independent confirmation is required.")
    ++ when s.resource_breach
        (lit "Shadow execution exceeded an approved resource or output contract.")
    ++ when s.incomplete_observation
        (lit "The runtime evidence channel was missing, invalid, or bypassed.")
    ++ when s.attestation_claimed (
        lit
          "Coverage-attestation events are not accepted until a typed, run-bound independent observer contract is implemented.")
    ++ when (positive s.warnings) (
        lit "Static analysis reported "
        ++ decimal s.warnings
        ++ lit " coverage warning(s); unexamined behavior may remain.")
    ++ when (s.completed && not independently_observed) (
        lit
          "SAFE is reserved for runs with an independent host-side behavior-coverage attestation.")

unfoldable pub grave_or_open : Signals → SecurityVerdict
grave_or_open s = if s.critical || s.high then review else inconclusive

-- The ladder at the end of `assess`. Its score is the one after all additions.
unfoldable pub decide_verdict : Signals → SecurityVerdict × Text
unfolding grave_or_open risk_score
decide_verdict s =
    if s.trusted_danger
    then (
      unsafe,
      lit
          "Shadow execution attempted secret access, egress, or another high-impact contract violation.",
    )
    else if s.resource_breach
    then (
      review,
      lit "Shadow execution exceeded an approved resource boundary and requires review.",
    )
    else if s.target_danger
    then (
      review,
      lit
          "The target-reported trace contains a high-impact behavior claim that requires independent confirmation.",
    )
    else if positive s.violations
    then (
      review,
      lit
          "Runtime evidence contains behavior outside the authorized contract that requires review.",
    )
    else if s.unavailable
    then (
      grave_or_open s,
      lit "The isolated runtime was unavailable, so the project was not dynamically verified.",
    )
    else if positive s.denied
    then (
      review,
      lit
          "Static analysis found behavior outside the enforced minimum-authority contract; a successful exit cannot clear it.",
    )
    else if s.incomplete_observation
    then (grave_or_open s, lit "The shadow run completed without a trustworthy behavior trace.")
    else if positive s.warnings
    then (
      grave_or_open s,
      lit "Static-analysis coverage was incomplete, so the project cannot be marked safe.",
    )
    else if positive s.blocked || (s.critical || (s.high || leb 20 (risk_score s)))
    then (review, lit "The project needs human review before it is trusted for research use.")
    else if not s.executed
    then (inconclusive, lit "Static preflight completed; a sandboxed shadow run is still required.")
    else if s.completed && independently_observed
    then (safe, lit "No contract-violating behavior was observed under the tested path and inputs.")
    else if s.completed
    then (
      inconclusive,
      lit
          "The shadow run completed inside the sandbox, but the current Python audit telemetry is target-controlled and cannot independently prove benign behavior.",
    )
    else (
      inconclusive,
      lit "Shadow execution did not complete and produced no decisive security violation.",
    )

-- `assess` on canonical arguments. The reason that goes with SAFE is left out with its branch.
unfoldable pub assess_canonical :
    Python → List Finding → Authorization → Option ExecutionResult → List Text → SecurityAssessment
unfolding gather risk_score reasons decide_verdict
assess_canonical P findings a execution warnings =
    let s = gather P findings a execution warnings in
    let verdict = decide_verdict s in
    record {
      verdict = verdict.0;
      risk_score = risk_score s;
      summary = verdict.1;
      reasons = reasons s;
      static_findings = findings;
      runtime_events = events_of execution;
    }

canonical_option : Option Value → Result (Option ExecutionResult)
canonical_option none = ok none
canonical_option (some v) = do r ← canonical_execution_result v; ok (some r)

-- `SecurityAssessor.assess`
unfoldable pub assess :
    Python
    → (raw_findings raw_authorization : Value) → Option Value
    → List Text
    → Result SecurityAssessment
unfolding assess_canonical canonical_option
assess P raw_findings raw_authorization execution warnings = do
  f ← canonical_findings raw_findings
  a ← canonical_authorization P raw_authorization
  e ← canonical_option execution
  ok (assess_canonical P f a e warnings)
