-- ===== src/Policy/Engine/Mediation.antt =====
-- src/r_sandbox/policy/engine.py: the requests that the decisions of `authorize` answer.
use r_sandbox.Prelude.{
  ◌≤◌, ◌≡◌, refl, sym, ap, ap₂, ◌∙◌, subst, inl, inr, false, Option, none, some, List, [], ◌∷◌, map,
  arith, Text, length, any, All, ok, invert, ok-injective, Bool-cases,
}
use mathlib.Core.List.{append-nil}
use r_sandbox.Python.{Python}
use r_sandbox.Models.Records.{CapabilityRequest, PlanStep, PolicyDecision, Authorization}
use r_sandbox.Models.Value.{Value}
use r_sandbox.Policy.Checks.{valid_confidence, max_plan_steps}
use r_sandbox.Policy.Plan.{
  ValidatedRequest, ValidatedPlan, validate_execution_plan, has_error, validated,
}
use r_sandbox.Policy.Plan.Contract.{Distinct, Fresh, Fresh-of_Distinct, ids, IsWellFormedStep}
use r_sandbox.Policy.Plan.Requests.{requests_of}
use r_sandbox.Policy.Plan.Sound.{capabilities_of, validate-IsSnapshot}
use r_sandbox.Policy.Config.{PolicyConfig}
use r_sandbox.Policy.Engine.{decided, identified, decide, decide_all, authorize_plan, authorize}

identified-request :
    (P : Python) (cfg : PolicyConfig) (r : CapabilityRequest) (expected : Text)
    → (identified P cfg r expected).request ≡ r
unfolding identified decided
identified-request P cfg r expected = ground arith

decide-request :
    (P : Python) (cfg : PolicyConfig) (goal : Text) (e : Option Text) (r : CapabilityRequest)
    (d : PolicyDecision)
    → decide P cfg goal e r ≡ ok d
    → d.request ≡ r
unfolding decide decided
decide-request P cfg goal (some e) r d h = sym (ap (λ x. x.request) (ok-injective _ _ h))
decide-request P cfg goal none r d h = elim (Bool-cases (valid_confidence r.confidence)) [
  | inl valid ↦ invert (rw valid at h) λ expected bound h1.
      sym (ap (λ x. x.request) (ok-injective _ _ h1)) ∙ identified-request P cfg r expected
  | inr invalid ↦ sym (ap (λ x. x.request) (ok-injective _ _ (rw invalid at h)))
]

decide_all-request :
    (P : Python) (cfg : PolicyConfig) (goal : Text) (e : Option Text) (seen : List Text)
    (vs : List ValidatedRequest) (ds : List PolicyDecision)
    → Fresh seen (ids (requests_of vs))
    → decide_all P cfg goal e seen vs ≡ ok ds
    → map (λ d. d.request) ds ≡ requests_of vs
unfolding decide_all
decide_all-request P cfg goal e seen [] ds f h =
    ap (map (λ d. d.request)) (sym (ok-injective _ _ h))
decide_all-request P cfg goal e seen (v ∷ vs) ds f h = invert (rw f.0 at h) λ d p h1.
    invert h1 λ rest q h2.
      subst (λ l. map (λ x. x.request) l ≡ v.request ∷ requests_of vs) (ok-injective _ _ h2)
        (ap₂ (λ x xs. x ∷ xs) (decide-request P cfg goal e v.request d p)
          (decide_all-request P cfg goal e (v.request.request_id ∷ seen) vs rest f.1 q))

-- A well-formed plan has one step at most, so its ids are those of a step.
plan_Distinct :
    (ss : List PlanStep)
    → length ss ≤ max_plan_steps
    → All IsWellFormedStep ss
    → Distinct (ids (capabilities_of ss))
plan_Distinct [] few h = tt
plan_Distinct (s ∷ []) few h = rw append-nil h.0.distinct
plan_Distinct (s ∷ t ∷ ss) few h = absurd (omega (arith, few))

requests_of-validated :
    (P : Python) (rs : List CapabilityRequest) → requests_of (map (validated P) rs) ≡ rs
unfolding validated
requests_of-validated P [] = refl
requests_of-validated P (r ∷ rs) = ap (λ xs. r ∷ xs) (requests_of-validated P rs)

authorize_plan-request :
    (P : Python) (config : PolicyConfig) (v : ValidatedPlan) (a : Authorization)
    → any has_error v.requests ≡ false
    → Fresh [] (ids (requests_of v.requests))
    → authorize_plan P config v ≡ ok a
    → map (λ d. d.request) a.decisions ≡ requests_of v.requests
unfolding authorize_plan
authorize_plan-request P config v a clean fresh k = invert (rw clean at k) λ cfg n k1.
    invert k1 λ ds p k2.
      subst (λ x. map (λ d. d.request) x.decisions ≡ requests_of v.requests) (ok-injective _ _ k2)
        (decide_all-request P cfg v.plan.goal _ [] v.requests ds fresh p)

-- For a plan without malformed requests the decisions answer the capabilities of the plan one by
-- one, in order, none left out and none added.
pub authorize-request :
    (P : Python) (plan : Value) (config : PolicyConfig) (v : ValidatedPlan) (a : Authorization)
    → validate_execution_plan P plan ≡ ok v
    → any has_error v.requests ≡ false
    → authorize P plan config ≡ ok a
    → map (λ d. d.request) a.decisions ≡ capabilities_of v.plan.steps
unfolding authorize
authorize-request P plan config v a h clean k =
    let s = validate-IsSnapshot P plan v h in
    let same_requests : requests_of v.requests ≡ capabilities_of v.plan.steps =
      ap requests_of s.requests ∙ requests_of-validated P _ in
    let fresh : Fresh [] (ids (requests_of v.requests)) = Fresh-of_Distinct _ (
      subst (λ rs. Distinct (ids rs)) (sym same_requests)
        (plan_Distinct v.plan.steps s.formed.few_steps s.formed.steps)) in
    invert k λ w hw k1.
      authorize_plan-request P config v a clean fresh
        (subst (λ x. authorize_plan P config x ≡ ok a) (ok-injective _ _ (sym hw ∙ h)) k1)
      ∙ same_requests
