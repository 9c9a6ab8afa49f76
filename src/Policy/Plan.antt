-- ===== src/Policy/Plan.antt =====
-- src/r_sandbox/policy/proposal_validation.py: whole plans, single steps and authorizations, from
-- untrusted objects to detached records.
pub mod Contract
pub mod Requests
pub mod Sound
pub mod Complete
pub mod Own
use r_sandbox.Prelude.{
  ℕ, ◌+◌, Bool, true, false, ◌||◌, Option, none, some, List, [], ◌∷◌, ◌++◌, map, Text, lit, ltb,
  if◌then◌else◌, length, is_empty, any, one_of, decimal, Raised, value_error, Result, ok, err,
  ◌>>=◌, ◌>>◌, raise_if,
}
use r_sandbox.Prelude.Int.{ℤ, pos, between}
use r_sandbox.Python.{Python}
use r_sandbox.Models.Enums.{Decision}
use r_sandbox.Models.Records.{
  int, CapabilityRequest, PlanStep, ExecutionPlan, PolicyDecision, Authorization,
}
use r_sandbox.Models.Value.{Value, values}
use r_sandbox.Policy.Checks.{
  text_error_of, max_plan_steps, max_capabilities, max_assumptions, max_argv_items, max_goal_length,
  max_summary_length, max_step_id_length, max_purpose_length, max_cwd_length, max_arg_length,
  max_assumption_length, max_attempt, max_policy_reason_length,
}
use r_sandbox.Policy.Request.{as_text, as_tuple, canonical_request, proposal_error}

pub record ValidatedRequest : Type 0 where
  pub request : CapabilityRequest
  pub error : Option Text

pub record ValidatedPlan : Type 0 where
  pub plan : ExecutionPlan
  pub requests : List ValidatedRequest

malformed : Text → Raised
malformed what = value_error (lit "Malformed execution plan: " ++ what)

text_or_error : Text → Option Text → Result Text
unfolding malformed
text_or_error t none = ok t
text_or_error t (some e) = err (malformed (e ++ lit "."))

-- `_require_text`, with the checked text.
unfoldable pub require_text : Value → Text → ℕ → Result Text
unfolding malformed text_or_error text_error_of
require_text (Value.text t) field maximum = text_or_error t (text_error_of t field maximum)
require_text _ field maximum = err (malformed (field ++ lit " must be a string."))

unfoldable pub require_texts : Text → ℕ → ℕ → List Value → Result (List Text)
unfolding require_text
require_texts field maximum index [] = ok []
require_texts field maximum index (v ∷ vs) = do
  t ← require_text v (field ++ lit "[" ++ decimal index ++ lit "]") maximum
  ts ← require_texts field maximum (index + 1) vs
  ok (t ∷ ts)

attempt_error : Raised
unfolding malformed
attempt_error = malformed (lit "plan.attempt must be an integer from 1 to 1000.")

unfoldable pub as_attempt : Value → Result ℤ
unfolding attempt_error
as_attempt (Value.num (int n)) = if between 1 max_attempt n then ok n else err attempt_error
as_attempt _ = err attempt_error

-- The pair of a request and its value error.
unfoldable pub validated : Python → CapabilityRequest → ValidatedRequest
unfolding proposal_error
validated P r = record { request = r; error = proposal_error P r }

-- The loop over the capabilities of a step. `seen` is the set `request_ids`, which goes on to the
-- next step.
unfoldable pub validate_requests :
    Python → Text → ℕ → List Text → List Value → Result (List Text × List ValidatedRequest)
unfolding malformed canonical_request validated
validate_requests P place index seen [] = ok (seen, [])
validate_requests P place index seen (v ∷ vs) =
    let field = place ++ lit ".capabilities[" ++ decimal index ++ lit "]" in
    do
      r ← canonical_request v field (malformed (field ++ lit " must be CapabilityRequest."))
      raise_if (one_of r.request_id seen) (malformed (lit "capability request ids must be unique."))
      (seen', rest) ← validate_requests P place (index + 1) (r.request_id ∷ seen) vs
      ok (seen', validated P r ∷ rest)

-- The variables that the loop over the steps carries.
pub record Progress : Type 0 where
  pub step_ids : List Text
  pub request_ids : List Text
  pub total_capabilities : ℕ

-- One round of the loop over the steps: the step and its validated requests.
unfoldable pub validate_step :
    Python → ℕ → Value → Progress → Result (Progress × PlanStep × List ValidatedRequest)
unfolding malformed as_tuple require_text require_texts validate_requests
validate_step P index (Value.plan_step step_id purpose argv cwd capabilities) s =
    let place = lit "plan.steps[" ++ decimal index ++ lit "]" in
    do
      i ← require_text step_id (place ++ lit ".step_id") max_step_id_length
      raise_if (one_of i s.step_ids) (malformed (lit "step ids must be unique."))
      p ← require_text purpose (place ++ lit ".purpose") max_purpose_length
      w ← require_text cwd (place ++ lit ".cwd") max_cwd_length
      args ← as_tuple argv (malformed (place ++ lit ".argv must be a tuple."))
      raise_if (is_empty args || ltb max_argv_items (length args))
          (malformed (lit "each step argv must contain between 1 and 256 items."))
      argv' ← require_texts (place ++ lit ".argv") max_arg_length 0 args
      caps ← as_tuple capabilities (malformed (place ++ lit ".capabilities must be a tuple."))
      raise_if (ltb max_capabilities (length caps))
          (malformed (lit "a step contains too many capability requests."))
      raise_if (ltb max_capabilities (s.total_capabilities + length caps))
          (malformed (lit "the plan contains too many capability requests."))
      (seen, rs) ← validate_requests P place 0 s.request_ids caps
      ok (
        record {
          step_ids = i ∷ s.step_ids;
          request_ids = seen;
          total_capabilities = s.total_capabilities + length caps;
        },
        record {
          step_id = i;
          purpose = p;
          argv = argv';
          cwd = w;
          capabilities = map (λ r. r.request) rs;
        },
        rs,
      )
validate_step P index _ s =
    err (malformed (lit "plan.steps[" ++ decimal index ++ lit "] must be PlanStep."))

unfoldable pub validate_steps :
    Python → ℕ → List Value → Progress → Result (List PlanStep × List ValidatedRequest)
unfolding validate_step
validate_steps P index [] s = ok ([], [])
validate_steps P index (v ∷ vs) s = do
  (s', step, rs) ← validate_step P index v s
  (steps, rest) ← validate_steps P (index + 1) vs s'
  ok (step ∷ steps, rs ++ rest)

abbrev pub no_progress : Progress
no_progress = record { step_ids = []; request_ids = []; total_capabilities = 0 }

-- `validate_execution_plan`
unfoldable pub validate_execution_plan : Python → Value → Result ValidatedPlan
unfolding malformed as_tuple require_text require_texts as_attempt validate_steps
validate_execution_plan P (Value.execution_plan goal summary steps assumptions attempt) = do
  g ← require_text goal (lit "plan.goal") max_goal_length
  s ← require_text summary (lit "plan.summary") max_summary_length
  raw_steps ← as_tuple steps (malformed (lit "plan.steps must be a tuple."))
  raise_if (ltb max_plan_steps (length raw_steps)) (malformed (lit "at most 1 steps are allowed."))
  raw_assumptions ← as_tuple assumptions (malformed (lit "plan.assumptions must be a tuple."))
  raise_if (ltb max_assumptions (length raw_assumptions))
      (malformed (lit "at most 256 assumptions are allowed."))
  a ← require_texts (lit "plan.assumptions") max_assumption_length 0 raw_assumptions
  n ← as_attempt attempt
  (canonical_steps, requests) ← validate_steps P 0 raw_steps no_progress
  ok (record {
    plan = record { goal = g; summary = s; steps = canonical_steps; assumptions = a; attempt = n };
    requests = requests;
  })
validate_execution_plan P _ = err (malformed (lit "expected ExecutionPlan."))

abbrev pub has_error : ValidatedRequest → Bool
has_error r = elim r.error [ none ↦ false | some e ↦ true ]

first_step : List PlanStep → Result PlanStep
unfolding malformed
first_step [] = err (malformed [])
first_step (s ∷ rest) = ok s

-- `canonical_plan_step`: the step is validated inside a plan of its own.
unfoldable pub canonical_plan_step : Python → Value → Result PlanStep
unfolding validate_execution_plan first_step malformed
canonical_plan_step P step = do
  v ← validate_execution_plan P (
      Value.execution_plan (Value.text (lit "runtime-boundary"))
        (Value.text (lit "canonical runtime step")) (Value.tuple (values (step ∷ [])))
        (Value.tuple (values [])) (Value.num (int (pos 1))))
  raise_if (any has_error v.requests) (malformed (lit "step has an invalid capability value."))
  first_step v.plan.steps

bad_authorization : Text → Raised
bad_authorization what = value_error (lit "Malformed authorization: " ++ what)

raise_proposal_error : Option Text → Result (Unit {0})
unfolding bad_authorization
raise_proposal_error none = ok tt
raise_proposal_error (some e) = err (bad_authorization (e ++ lit "."))

as_decision : Value → Result Decision
unfolding bad_authorization
as_decision (Value.decision d) = ok d
as_decision _ = err (bad_authorization (lit "decision enum is invalid."))

-- One round of the loop of `canonical_authorization`.
unfoldable pub canonical_decision : Python → ℕ → Value → Result PolicyDecision
unfolding bad_authorization raise_proposal_error as_decision require_text canonical_request
canonical_decision P index (Value.policy_decision raw_request raw_decision raw_reason) =
    let place = lit "authorization.decisions[" ++ decimal index ++ lit "]" in
    do
      d ← as_decision raw_decision
      t ← require_text raw_reason (place ++ lit ".reason") max_policy_reason_length
      r ←
          canonical_request raw_request (place ++ lit ".request")
            (bad_authorization (lit "request must be CapabilityRequest."))
      raise_proposal_error (proposal_error P r)
      ok (record { request = r; decision = d; reason = t })
canonical_decision P index _ = err (bad_authorization (lit "decision must be PolicyDecision."))

unfoldable pub canonical_decisions : Python → ℕ → List Value → Result (List PolicyDecision)
unfolding canonical_decision
canonical_decisions P index [] = ok []
canonical_decisions P index (v ∷ vs) = do
  d ← canonical_decision P index v
  ds ← canonical_decisions P (index + 1) vs
  ok (d ∷ ds)

-- `canonical_authorization`
unfoldable pub canonical_authorization : Python → Value → Result Authorization
unfolding bad_authorization as_tuple canonical_decisions
canonical_authorization P (Value.authorization decisions) = do
  vs ← as_tuple decisions (bad_authorization (lit "decisions must be a bounded tuple."))
  raise_if (ltb max_capabilities (length vs))
      (bad_authorization (lit "decisions must be a bounded tuple."))
  ds ← canonical_decisions P 0 vs
  ok (record { decisions = ds })
canonical_authorization P _ = err (bad_authorization (lit "expected Authorization."))
