-- ===== src/Policy/Request.antt =====
-- src/r_sandbox/policy/proposal_validation.py: one capability request, from an untrusted object to
-- a detached record, and the value errors of that record.
pub mod Laws
use r_sandbox.Prelude.{
  ℕ, zero, suc, ◌+◌, Bool, true, false, not, Option, none, some, List, [], ◌∷◌, ◌++◌, Text, lit,
  ltb, if◌then◌else◌, length, take, decimal, Raised, value_error, Result, ok, err, ◌>>=◌, ◌>>◌,
  raise_if,
}
use r_sandbox.Prelude.Int.{between}
use r_sandbox.Prelude.Float.{zero_float}
use r_sandbox.Python.{Python}
use r_sandbox.Models.Enums.{CapabilityCategory, RiskLevel, critical, category_value}
use r_sandbox.Models.Records.{Number, bool, int, float, Evidence, CapabilityRequest}
use r_sandbox.Models.Value.{Value, items}
use r_sandbox.Policy.Checks.{
  text_error_of, or_error, valid_confidence, is_request_id, category_value_error,
  max_evidence_items, max_action_length, max_target_length, max_justification_length,
  max_evidence_source_length, max_evidence_detail_length, max_line_number,
}

malformed : Text → Raised
malformed what = value_error (lit "Malformed execution plan: " ++ what)

-- `type(x) is C`, with the value where it is.
unfoldable pub as_text : Value → Raised → Result Text
as_text (Value.text t) e = ok t
as_text _ e = err e

unfoldable pub as_number : Value → Raised → Result Number
as_number (Value.num n) e = ok n
as_number _ e = err e

unfoldable pub as_tuple : Value → Raised → Result (List Value)
as_tuple (Value.tuple vs) e = ok (items vs)
as_tuple _ e = err e

unfoldable pub as_category : Value → Raised → Result CapabilityCategory
as_category (Value.category c) e = ok c
as_category _ e = err e

unfoldable pub as_risk : Value → Raised → Result RiskLevel
as_risk (Value.risk r) e = ok r
as_risk _ e = err e

-- `line is not None and type(line) not in {bool, int}`
unfoldable pub as_line : Value → Raised → Result (Option Number)
as_line Value.nothing e = ok none
as_line (Value.num (bool b)) e = ok (some (bool b))
as_line (Value.num (int n)) e = ok (some (int n))
as_line _ e = err e

-- One item of the loop over the evidence.
unfoldable pub canonical_evidence_item : Text → ℕ → Value → Result Evidence
unfolding malformed as_text as_line
canonical_evidence_item field index (Value.evidence raw_source raw_detail raw_line) =
    let place = field ++ lit ".evidence[" ++ decimal index in
    let text_fault = malformed (place ++ lit "] text fields must be strings.") in
    do
      s ← as_text raw_source text_fault
      d ← as_text raw_detail text_fault
      l ← as_line raw_line (malformed (place ++ lit "].line must be an integer or null."))
      ok (record { source = s; detail = d; line = l })
canonical_evidence_item field index _ =
    err (malformed (field ++ lit ".evidence[" ++ decimal index ++ lit "] must be Evidence."))

unfoldable pub canonical_evidence : Text → ℕ → List Value → Result (List Evidence)
unfolding canonical_evidence_item
canonical_evidence field index [] = ok []
canonical_evidence field index (v ∷ vs) = do
  e ← canonical_evidence_item field index v
  rest ← canonical_evidence field (index + 1) vs
  ok (e ∷ rest)

-- `_canonical_request`, after the caller's `type(request) is CapabilityRequest`.
unfoldable pub canonical_request : Value → Text → Raised → Result CapabilityRequest
unfolding malformed as_text as_number as_tuple as_category as_risk canonical_evidence
canonical_request
      (Value.capability_request raw_id raw_category raw_action raw_target raw_justification
        raw_confidence raw_risk raw_evidence)
      field wrong_type =
    do
      c ← as_category raw_category (malformed (field ++ lit ".category has an invalid enum type."))
      r ← as_risk raw_risk (malformed (field ++ lit ".risk has an invalid enum type."))
      i ← as_text raw_id (malformed (field ++ lit ".request_id must be a string."))
      a ← as_text raw_action (malformed (field ++ lit ".action must be a string."))
      t ← as_text raw_target (malformed (field ++ lit ".target must be a string."))
      j ← as_text raw_justification (malformed (field ++ lit ".justification must be a string."))
      n ← as_number raw_confidence (malformed (field ++ lit ".confidence must be a number."))
      vs ← as_tuple raw_evidence (malformed (field ++ lit ".evidence must be a tuple."))
      raise_if (ltb max_evidence_items (length vs))
          (malformed (field ++ lit ".evidence exceeds 128 items."))
      es ← canonical_evidence field 0 vs
      ok (record {
        request_id = i;
        category = c;
        action = a;
        target = t;
        justification = j;
        confidence = n;
        risk = r;
        evidence = es;
      })
canonical_request _ field wrong_type = err wrong_type

-- `line is not None and (type(line) is not int or not 1 <= line <= _MAX_LINE_NUMBER)`
unfoldable pub is_bad_line : Option Number → Bool
is_bad_line none = false
is_bad_line (some (int n)) = not (between 1 max_line_number n)
is_bad_line (some _) = true

unfoldable pub evidence_error : ℕ → Evidence → Option Text
unfolding is_bad_line
evidence_error index e =
    let place = lit "evidence[" ++ decimal index in
    or_error (text_error_of e.source (place ++ lit "].source") max_evidence_source_length) (
      or_error (text_error_of e.detail (place ++ lit "].detail") max_evidence_detail_length) (
        if is_bad_line e.line
        then some (place ++ lit "].line must be null or a positive bounded integer")
        else none))

unfoldable pub evidence_errors : ℕ → List Evidence → Option Text
unfolding evidence_error
evidence_errors index [] = none
evidence_errors index (e ∷ es) = or_error (evidence_error index e) (evidence_errors (index + 1) es)

-- `_request_value_error`
unfoldable pub request_value_error : CapabilityRequest → Option Text
unfolding evidence_errors
request_value_error r = or_error (text_error_of r.request_id (lit "request_id") 36) (
    or_error (text_error_of r.action (lit "action") max_action_length) (
      or_error (text_error_of r.target (lit "target") max_target_length) (
        or_error (text_error_of r.justification (lit "justification") max_justification_length) (
          if not (is_request_id r.request_id)
          then some
              (lit "request_id must match cap- followed by 32 lowercase hexadecimal characters")
          else if not (valid_confidence r.confidence)
          then some (lit "confidence must be a finite non-boolean number between 0 and 1")
          else evidence_errors 0 r.evidence))))

-- `_request_value_error(r) or _category_value_error(r)`
unfoldable pub proposal_error : Python → CapabilityRequest → Option Text
unfolding request_value_error category_value_error
proposal_error P r = or_error (request_value_error r) (category_value_error P r)

-- `quarantine_request`; the material is ASCII, so its bytes are its code points.
unfoldable pub quarantine_request : Python → CapabilityRequest → Text → ℕ → CapabilityRequest
quarantine_request P r error index =
    let material = decimal index ++ lit ":" ++ category_value r.category ++ lit ":" ++ error in
    record {
      request_id = lit "cap-" ++ take 32 (P.sha256_hexdigest material);
      category = r.category;
      action = lit "invalid_proposal";
      target = lit "<malformed-capability>";
      justification = lit "Rejected at proposal validation boundary: " ++ error ++ lit ".";
      confidence = float zero_float;
      risk = critical;
      evidence = [];
    }
