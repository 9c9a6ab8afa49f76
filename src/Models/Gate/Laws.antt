-- ===== src/Models/Gate/Laws.antt =====
-- src/r_sandbox/models.py: the gate of a serialized report.
use r_sandbox.Prelude.{
  ◌≡◌, ◌≢◌, refl, ap, subst, [], ◌∷◌, ◌++◌, Bool, true, false, not, Option, none, some, List, lit,
  same, arith, is_empty, ok, invert, invert_guard, ok-injective, >>-eq-ok, raise_if-eq-ok,
}
use r_sandbox.Models.Enums.{
  AgentOutcome, succeeded, failed, runtime_unavailable, SecurityVerdict, safe, review, unsafe,
  inconclusive, is_safe,
}
use r_sandbox.Models.Records.{ExecutionResult, SecurityAssessment}
use r_sandbox.Models.Report.{AgentReport}
use r_sandbox.Models.Equality.{same_result}
use r_sandbox.Models.Equality.Laws.{IsSame, outcome_value-injective, same_result-IsSame}
use r_sandbox.Models.Gate.{
  verdict_gate, gate_result, is_process_outcome, last_is, safe_assessment, require_coherent,
  canonical_agent_report,
}

-- The fields of a report that fit together.
abbrev pub Agree : AgentOutcome → Option ExecutionResult → List ExecutionResult → Type 0
Agree outcome none history =
    (history ≡ []) × (outcome ≢ succeeded) × (outcome ≢ failed) × (outcome ≢ runtime_unavailable)
Agree outcome (some e) history =
    (outcome ≡ e.status)
    × (earlier : List ExecutionResult) × (last : ExecutionResult) × (history ≡ earlier ++ last ∷ [])
    × IsSame last e

pub record IsGated (r : AgentReport) : Type 0 where
  pub not_passed : same (gate_result r.security_assessment) (lit "pass") ≡ false
  pub agree : Agree r.outcome r.execution r.execution_history

verdict_gate-pass :
    (v : SecurityVerdict) → is_safe v ≡ false → same (verdict_gate v) (lit "pass") ≡ false
unfolding verdict_gate same lit
verdict_gate-pass safe h = cc h
verdict_gate-pass review h = refl
verdict_gate-pass unsafe h = refl
verdict_gate-pass inconclusive h = refl

gate_result-pass :
    (a : Option SecurityAssessment)
    → safe_assessment a ≡ false
    → same (gate_result a) (lit "pass") ≡ false
unfolding safe_assessment gate_result same lit
gate_result-pass none h = refl
gate_result-pass (some a) h = verdict_gate-pass a.verdict h

not-false : (b : Bool) → not b ≡ false → b ≡ true
not-false b h = ground arith

last_is-last :
    (e : ExecutionResult) (history : List ExecutionResult)
    → last_is (λ r. same_result r e) history ≡ true
    → (earlier : List ExecutionResult) × (last : ExecutionResult) × (history ≡ earlier ++ last ∷ [])
      × IsSame last e
unfolding last_is
last_is-last e [] h = absurd (cc h)
last_is-last e (r ∷ []) h = ([], r, refl, same_result-IsSame r e h)
last_is-last e (r ∷ q ∷ rs) h =
    let (earlier, last, p, s) = last_is-last e (q ∷ rs) h in
    (r ∷ earlier, last, ap (λ x. r ∷ x) p, s)

no_process :
    (o : AgentOutcome)
    → is_process_outcome o ≡ false
    → (o ≢ succeeded) × (o ≢ failed) × (o ≢ runtime_unavailable)
unfolding is_process_outcome
no_process o h =
    (λ e. absurd (cc (rw e at h)), λ e. absurd (cc (rw e at h)), λ e. absurd (cc (rw e at h)))

is_empty-eq : (xs : List ExecutionResult) → is_empty xs ≡ true → xs ≡ []
is_empty-eq [] h = refl
is_empty-eq (x ∷ xs) h = cc h

require_coherent-Agree :
    (o : AgentOutcome) (e : Option ExecutionResult) (history : List ExecutionResult) {u : Unit {0}}
    → require_coherent o e history ≡ ok u
    → Agree o e history
unfolding require_coherent
require_coherent-Agree o none history h =
    let (p, q) = >>-eq-ok _ _ h in
    let (a, b, c) = no_process o (raise_if-eq-ok _ _ q) in
    (is_empty-eq history (not-false _ (raise_if-eq-ok _ _ p)), a, b, c)
require_coherent-Agree o (some e) history h =
    let (p, rest) = >>-eq-ok _ _ h in
    let (q, r) = >>-eq-ok _ _ rest in
    let (earlier, last, found, same_last) =
      last_is-last e history (not-false _ (raise_if-eq-ok _ _ q)) in
    (
      outcome_value-injective o e.status (not-false _ (raise_if-eq-ok _ _ r)),
      earlier,
      last,
      found,
      same_last,
    )

-- A report that may be serialized does not pass the security gate, and is consistent: without an
-- execution its history is empty and its outcome is none of SUCCEEDED, FAILED and
-- RUNTIME_UNAVAILABLE; and else its outcome is the status of the execution, and the last of its
-- history equals the execution field by field, the durations as numbers.
pub canonical_agent_report-IsGated :
    (r out : AgentReport) → canonical_agent_report r ≡ ok out → IsGated out
unfolding canonical_agent_report
canonical_agent_report-IsGated r out h = invert_guard _ _ h λ g1 h1. invert_guard _ _ h1 λ g2 h2.
    invert h2 λ e p3 h3. invert_guard _ _ h3 λ g4 h4. invert h4 λ history p5 h5.
      invert h5 λ a p6 h6. invert_guard _ _ h6 λ g7 h7. invert h7 λ u p8 h8.
        subst IsGated (ok-injective _ _ h8) (record {
          not_passed = gate_result-pass a g7;
          agree = require_coherent-Agree r.outcome e history p8;
        })
