-- ===== src/Policy/Plan/Complete.antt =====
-- src/r_sandbox/policy/proposal_validation.py: what `validate_execution_plan` accepts.
use mathlib.Core.List.{append-nil}
use r_sandbox.Prelude.{
  ℕ, suc, ◌+◌, ◌≤◌, ◌≡◌, refl, sym, ap, subst, false, ◌||◌, List, [], ◌∷◌, map, arith, Text, ltb,
  length, length-map, is_empty, All, one_of, ok, ◌>>=◌, raise_if,
}
use r_sandbox.Prelude.Int.{ℤ, pos, negsuc, ◌≤ℤ◌}
use r_sandbox.Python.{Python}
use r_sandbox.Models.Records.{int, CapabilityRequest, PlanStep, ExecutionPlan}
use r_sandbox.Models.Value.{Value, items-values, request_value, step_value, plan_value}
use r_sandbox.Policy.Checks.{
  max_attempt, max_capabilities, max_argv_items, max_plan_steps, max_assumptions,
}
use r_sandbox.Policy.Checks.Laws.{IsBounded, text_error_of-IsBounded}
use r_sandbox.Policy.Request.{as_tuple}
use r_sandbox.Policy.Request.Laws.{IsDetached, canonical_request-request_value}
use r_sandbox.Policy.Plan.{
  require_text, require_texts, as_attempt, validated, validate_requests, validate_step,
  validate_steps, validate_execution_plan, Progress, no_progress,
}
use r_sandbox.Policy.Plan.Contract.{Fresh, Fresh-of_Distinct, ids, IsWellFormedStep, IsWellFormed}
use r_sandbox.Policy.Plan.Requests.{requests_of}
use r_sandbox.Policy.Plan.Sound.{capabilities_of}

require_text-text :
    (t field : Text) (maximum : ℕ)
    → IsBounded maximum t
    → require_text (Value.text t) field maximum ≡ ok t
unfolding require_text
require_text-text t field maximum h = rw (text_error_of-IsBounded t field maximum h)

require_texts-map :
    (field : Text) (maximum i : ℕ) (ts : List Text)
    → All (IsBounded maximum) ts
    → require_texts field maximum i (map Value.text ts) ≡ ok ts
unfolding require_texts ◌>>=◌
require_texts-map field maximum i [] h = refl
require_texts-map field maximum i (t ∷ ts) h =
    rw (text_error_of-IsBounded t _ maximum h.0, require_texts-map field maximum (i + 1) ts h.1)

as_attempt-int : (n : ℤ) → pos 1 ≤ℤ n → n ≤ℤ pos max_attempt → as_attempt (Value.num (int n)) ≡ ok n
unfolding as_attempt
as_attempt-int (pos n) h k = ground arith
as_attempt-int (negsuc n) h k = absurd (omega arith)

requests_of-map :
    (P : Python) (rs : List CapabilityRequest) → requests_of (map (validated P) rs) ≡ rs
unfolding validated
requests_of-map P [] = refl
requests_of-map P (r ∷ rs) = ap (λ xs. r ∷ xs) (requests_of-map P rs)

-- The ids seen after the loop.
seen_after : List Text → List CapabilityRequest → List Text
seen_after seen [] = seen
seen_after seen (r ∷ rs) = seen_after (r.request_id ∷ seen) rs

validate_requests-map :
    (P : Python) (place : Text) (i : ℕ) (seen : List Text) (rs : List CapabilityRequest)
    → All IsDetached rs
    → Fresh seen (ids rs)
    → validate_requests P place i seen (map request_value rs)
      ≡ ok (seen_after seen rs, map (validated P) rs)
unfolding validate_requests seen_after ◌>>=◌ raise_if
validate_requests-map P place i seen [] h f = refl
validate_requests-map P place i seen (r ∷ rs) h f = rw (
  canonical_request-request_value r _ _ h.0,
  f.0,
  validate_requests-map P place (i + 1) (r.request_id ∷ seen) rs h.1 f.1,
)

not_lt_of_le : (m n : ℕ) → n ≤ m → ltb m n ≡ false
not_lt_of_le m n h = ground arith

argv_in_range :
    (ts : List Text)
    → 1 ≤ length ts
    → length ts ≤ max_argv_items
    → (is_empty (map Value.text ts) || ltb max_argv_items (length (map Value.text ts))) ≡ false
argv_in_range [] h k = absurd (omega (arith, h))
argv_in_range (t ∷ ts) h k =
    not_lt_of_le _ _ (subst (λ n. suc n ≤ max_argv_items) (sym (length-map Value.text ts)) k)

step_after : PlanStep → Progress
unfolding seen_after
step_after s = record {
  step_ids = s.step_id ∷ [];
  request_ids = seen_after [] s.capabilities;
  total_capabilities = 0 + length s.capabilities;
}

validate_step-step_value :
    (P : Python) (i : ℕ) (s : PlanStep)
    → IsWellFormedStep s
    → validate_step P i (step_value s) no_progress
      ≡ ok (step_after s, s, map (validated P) s.capabilities)
unfolding validate_step step_after one_of as_tuple ◌>>=◌ raise_if
validate_step-step_value P i s h = rw (
  text_error_of-IsBounded s.step_id _ _ h.step_id,
  text_error_of-IsBounded s.purpose _ _ h.purpose,
  text_error_of-IsBounded s.cwd _ _ h.cwd,
  items-values (map Value.text s.argv),
  argv_in_range s.argv h.some_argv h.few_argv,
  require_texts-map _ _ 0 s.argv h.argv,
  items-values (map request_value s.capabilities),
  length-map request_value s.capabilities,
  not_lt_of_le max_capabilities (length s.capabilities) h.few_capabilities,
  not_lt_of_le max_capabilities (0 + length s.capabilities) (omega (arith, h.few_capabilities)),
  validate_requests-map P _ 0 [] s.capabilities h.capabilities (Fresh-of_Distinct _ h.distinct),
  requests_of-map P s.capabilities,
)

validate_steps-map :
    (P : Python) (ss : List PlanStep)
    → length ss ≤ max_plan_steps
    → All IsWellFormedStep ss
    → validate_steps P 0 (map step_value ss) no_progress
      ≡ ok (ss, map (validated P) (capabilities_of ss))
unfolding validate_steps ◌>>=◌
validate_steps-map P [] few h = refl
validate_steps-map P (s ∷ []) few h = rw (validate_step-step_value P 0 s h.0) (simp append-nil)
validate_steps-map P (s ∷ t ∷ ss) few h = absurd (omega (arith, few))

-- A plan that meets the contract passes the validation unchanged, with its capabilities in order,
-- each with its value error.
pub validate-plan_value :
    (P : Python) (p : ExecutionPlan)
    → IsWellFormed p
    → validate_execution_plan P (plan_value p)
      ≡ ok (record { plan = p; requests = map (validated P) (capabilities_of p.steps) })
unfolding validate_execution_plan as_tuple ◌>>=◌ raise_if
validate-plan_value P p h = rw (
  text_error_of-IsBounded p.goal _ _ h.goal,
  text_error_of-IsBounded p.summary _ _ h.summary,
  items-values (map step_value p.steps),
  length-map step_value p.steps,
  not_lt_of_le max_plan_steps (length p.steps) h.few_steps,
  items-values (map Value.text p.assumptions),
  length-map Value.text p.assumptions,
  not_lt_of_le max_assumptions (length p.assumptions) h.few_assumptions,
  require_texts-map _ _ 0 p.assumptions h.assumptions,
  as_attempt-int p.attempt h.positive_attempt h.bounded_attempt,
  validate_steps-map P p.steps h.few_steps h.steps,
)
