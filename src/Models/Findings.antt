-- ===== src/Models/Findings.antt =====
-- src/r_sandbox/models.py: `canonical_findings`, the copy of the static findings that a verdict
-- may rest on.
use r_sandbox.Prelude.{
  ℕ, ◌||◌, Option, none, some, List, [], ◌∷◌, Text, lit, ltb, if◌then◌else◌, length, is_empty,
  has_char, Raised, type_error, Result, ok, err, ◌>>=◌, ◌>>◌, raise_if,
}
use r_sandbox.Prelude.Int.{between}
use r_sandbox.Models.Enums.{CapabilityCategory, RiskLevel}
use r_sandbox.Models.Records.{Number, int, Evidence, Finding}
use r_sandbox.Models.Value.{Value, items}

finding_text_error : Raised
finding_text_error = type_error (lit "finding text fields must be exact bounded strings")

finding_text : Value → Result Text
unfolding finding_text_error
finding_text (Value.text t) = do
  raise_if (is_empty t || (ltb 32768 (length t) || has_char 0 t)) finding_text_error
  ok t
finding_text _ = err finding_text_error

evidence_fault : Raised
evidence_fault = type_error (lit "finding evidence contains malformed fields")

evidence_text : ℕ → Value → Result Text
unfolding evidence_fault
evidence_text maximum (Value.text t) = do
  raise_if (ltb maximum (length t) || has_char 0 t) evidence_fault
  ok t
evidence_text maximum _ = err evidence_fault

finding_line : Value → Result (Option Number)
unfolding evidence_fault
finding_line Value.nothing = ok none
finding_line (Value.num (int n)) =
    if between 1 2147483647 n then ok (some (int n)) else err evidence_fault
finding_line _ = err evidence_fault

finding_evidence_item : Value → Result Evidence
unfolding evidence_text finding_line
finding_evidence_item (Value.evidence raw_source raw_detail raw_line) = do
  s ← evidence_text 8192 raw_source
  d ← evidence_text 32768 raw_detail
  l ← finding_line raw_line
  ok (record { source = s; detail = d; line = l })
finding_evidence_item _ =
    err (type_error (lit "finding evidence must contain exact Evidence values"))

finding_evidence : List Value → Result (List Evidence)
unfolding finding_evidence_item
finding_evidence [] = ok []
finding_evidence (v ∷ vs) = do e ← finding_evidence_item v; es ← finding_evidence vs; ok (e ∷ es)

finding_items : Value → Raised → Result (List Value)
finding_items (Value.tuple vs) e = ok (items vs)
finding_items _ e = err e

finding_category : Value → Result CapabilityCategory
finding_category (Value.category c) = ok c
finding_category _ = err (type_error (lit "finding category must be a CapabilityCategory"))

finding_risk : Value → Result RiskLevel
finding_risk (Value.risk r) = ok r
finding_risk _ = err (type_error (lit "finding risk must be a RiskLevel"))

unfoldable pub canonical_finding : Value → Result Finding
unfolding finding_text finding_evidence finding_items finding_category finding_risk
canonical_finding
      (Value.finding raw_id raw_category raw_action raw_target raw_risk raw_reason raw_evidence) =
    do
      c ← finding_category raw_category
      r ← finding_risk raw_risk
      i ← finding_text raw_id
      a ← finding_text raw_action
      t ← finding_text raw_target
      reason ← finding_text raw_reason
      vs ←
          finding_items raw_evidence
            (type_error (lit "finding evidence must be a bounded exact tuple"))
      raise_if (ltb 1024 (length vs))
          (type_error (lit "finding evidence must be a bounded exact tuple"))
      es ← finding_evidence vs
      ok (record {
        finding_id = i;
        category = c;
        action = a;
        target = t;
        risk = r;
        reason = reason;
        evidence = es;
      })
canonical_finding _ = err (type_error (lit "security findings must contain exact Finding values"))

canonical_finding_list : List Value → Result (List Finding)
unfolding canonical_finding
canonical_finding_list [] = ok []
canonical_finding_list (v ∷ vs) = do
  f ← canonical_finding v
  fs ← canonical_finding_list vs
  ok (f ∷ fs)

-- `canonical_findings`
unfoldable pub canonical_findings : Value → Result (List Finding)
unfolding canonical_finding_list finding_items
canonical_findings v = do
  vs ← finding_items v (type_error (lit "security findings must be a bounded exact tuple"))
  raise_if (ltb 100000 (length vs))
      (type_error (lit "security findings must be a bounded exact tuple"))
  canonical_finding_list vs
