-- ===== src/Policy/Engine/Grants.antt =====
-- src/r_sandbox/policy/engine.py: the grounds of the ALLOW and DENY decisions of `authorize`.
use r_sandbox.Prelude.{
  ℕ, suc, ◌+◌, ◌≡◌, refl, sym, ap, ◌∙◌, subst, ◌⊎◌, inl, inr, true, false, Option, none, some, List,
  [], ◌∷◌, arith, Text, length, any, All, same, same→eq, one_of, ok, ◌>>=◌, invert, ok-injective,
  Bool-cases,
}
use r_sandbox.Python.{Python}
use r_sandbox.Models.Enums.{allow, deny, require_approval}
use r_sandbox.Models.Records.{CapabilityRequest, PolicyDecision, Authorization}
use r_sandbox.Models.Value.{Value}
use r_sandbox.Policy.Checks.{valid_confidence}
use r_sandbox.Policy.Plan.{ValidatedRequest, ValidatedPlan, validate_execution_plan, has_error}
use r_sandbox.Policy.Identity.{capability_request_id}
use r_sandbox.Policy.Config.{PolicyConfig, normalized, numeric_config_error}
use r_sandbox.Policy.Handlers.{Answer}
use r_sandbox.Policy.Engine.{
  evaluate, with_approval, decided, identified, decide, decide_all, quarantined, quarantine_all,
  authorize_plan, authorize,
}

abbrev pub IsApproved : PolicyConfig → CapabilityRequest → Type 0
IsApproved cfg r =
    (one_of r.request_id cfg.approved_request_ids ≡ true) × (cfg.approval_context_immutable ≡ true)

-- How a request may come to be allowed.
abbrev pub IsEarned : Python → PolicyConfig → CapabilityRequest → Type 0
IsEarned P cfg r =
    ((evaluate P cfg r).0 ≡ allow) ⊎ (((evaluate P cfg r).0 ≡ require_approval) × IsApproved cfg r)

pub record IsGranted (P : Python) (cfg : PolicyConfig) (goal : Text) (r : CapabilityRequest)
    : Type 0 where
  pub sound_config : numeric_config_error cfg ≡ none
  pub confidence : valid_confidence r.confidence ≡ true
  pub bound :
      capability_request_id P cfg.repository goal r cfg.repository_digest cfg.authorization_context
      ≡ ok r.request_id
  pub earned : IsEarned P cfg r

with_approval-eq-allow :
    (cfg : PolicyConfig) (id : Text) (a : Answer)
    → (with_approval cfg id a).0 ≡ allow
    → (a.0 ≡ allow)
      ⊎ ((a.0 ≡ require_approval)
          × ((one_of id cfg.approved_request_ids ≡ true) × (cfg.approval_context_immutable ≡ true)))
unfolding with_approval
with_approval-eq-allow cfg id (allow, reason) h = inl refl
with_approval-eq-allow cfg id (deny, reason) h = cc
with_approval-eq-allow cfg id (require_approval, reason) h =
    inr (refl, (ground arith, ground arith))

identified-IsGranted :
    (P : Python) (cfg : PolicyConfig) (goal : Text) (r : CapabilityRequest) (expected : Text)
    → numeric_config_error cfg ≡ none
    → valid_confidence r.confidence ≡ true
    → capability_request_id P cfg.repository goal r cfg.repository_digest cfg.authorization_context
      ≡ ok expected
    → (identified P cfg r expected).decision ≡ allow
    → IsGranted P cfg goal (identified P cfg r expected).request
unfolding identified decided
identified-IsGranted P cfg goal r expected e c bound h =
    elim (Bool-cases (same r.request_id expected)) [
      | inl same_id ↦
          rw (same_id, decided)
            (record {
              sound_config = e;
              confidence = c;
              bound = bound ∙ ap ok (sym (same→eq r.request_id expected same_id));
              earned = with_approval-eq-allow cfg r.request_id (evaluate P cfg r) (rw same_id at h);
            })
      | inr differs ↦ absurd (ground arith)
    ]

abbrev pub Backed : Python → PolicyConfig → Text → PolicyDecision → Type 0
Backed P cfg goal d = d.decision ≡ allow → IsGranted P cfg goal d.request

decide-Backed :
    (P : Python) (cfg : PolicyConfig) (goal : Text) (e : Option Text) (r : CapabilityRequest)
    (d : PolicyDecision)
    → numeric_config_error cfg ≡ e
    → decide P cfg goal e r ≡ ok d
    → Backed P cfg goal d
unfolding decide decided
decide-Backed P cfg goal (some e) r d he h = λ a. cc
decide-Backed P cfg goal none r d he h = elim (Bool-cases (valid_confidence r.confidence)) [
  | inl valid ↦ invert (rw valid at h) λ expected bound h1.
      subst (Backed P cfg goal) (ok-injective _ _ h1)
        (identified-IsGranted P cfg goal r expected he valid bound)
  | inr invalid ↦ λ a. ground arith
]

decide_all-Backed :
    (P : Python) (cfg : PolicyConfig) (goal : Text) (seen : List Text) (vs : List ValidatedRequest)
    (ds : List PolicyDecision)
    → decide_all P cfg goal (numeric_config_error cfg) seen vs ≡ ok ds
    → All (Backed P cfg goal) ds
unfolding decide_all
decide_all-Backed P cfg goal seen [] [] h = tt
decide_all-Backed P cfg goal seen [] (d ∷ ds) h = cc
decide_all-Backed P cfg goal seen (v ∷ vs) ds h =
    elim (Bool-cases (one_of v.request.request_id seen)) [
      | inl old ↦ decide_all-Backed P cfg goal seen vs ds (rw old at h)
      | inr new ↦ invert (rw new at h) λ d p h1. invert h1 λ rest q h2.
          subst (All (Backed P cfg goal)) (ok-injective _ _ h2) (
            decide-Backed P cfg goal _ v.request d refl p,
            decide_all-Backed P cfg goal (v.request.request_id ∷ seen) vs rest q,
          )
    ]

abbrev pub IsDenied : PolicyDecision → Type 0
IsDenied d = d.decision ≡ deny

quarantine_all-IsDenied :
    (P : Python) (i : ℕ) (vs : List ValidatedRequest)
    → All IsDenied (quarantine_all P i vs) × (length (quarantine_all P i vs) ≡ length vs)
unfolding quarantine_all quarantined decided
quarantine_all-IsDenied P i [] = (tt, refl)
quarantine_all-IsDenied P i (v ∷ vs) =
    let (denied, size) = quarantine_all-IsDenied P (i + 1) vs in
    ((ground arith, denied), ap suc size)

-- A plan with a malformed request is refused whole, under every configuration: one decision for
-- each request, and each of them DENY.
pub malformed-IsDenied :
    (P : Python) (plan : Value) (config : PolicyConfig) (v : ValidatedPlan)
    → validate_execution_plan P plan ≡ ok v
    → any has_error v.requests ≡ true
    → (a : Authorization) × (authorize P plan config ≡ ok a)
      × All IsDenied a.decisions
      × (length a.decisions ≡ length v.requests)
unfolding authorize authorize_plan ◌>>=◌
malformed-IsDenied P plan config v h bad =
    let (denied, size) = quarantine_all-IsDenied P 0 v.requests in
    (record { decisions = quarantine_all P 0 v.requests }, rw (h, bad), denied, size)

authorize_step :
    (P : Python) (config : PolicyConfig) (v : ValidatedPlan) (a : Authorization)
    → any has_error v.requests ≡ false
    → authorize_plan P config v ≡ ok a
    → (cfg : PolicyConfig) × (normalized P config ≡ ok cfg)
      × All (Backed P cfg v.plan.goal) a.decisions
unfolding authorize_plan
authorize_step P config v a clean k = invert (rw clean at k) λ cfg n k1. invert k1 λ ds p k2. (
  cfg,
  n,
  subst (λ x. All (Backed P cfg v.plan.goal) x.decisions) (ok-injective _ _ k2)
      (decide_all-Backed P cfg v.plan.goal [] v.requests ds p),
)

-- Every ALLOW names its grounds: the configuration is sound, the confidence is in range, the id is
-- the canonical id of this very request under this repository, goal, digest and context, and
-- either the category's rule allows the request, or it asks for an approval that was given for
-- this id while the image is immutable.
pub authorize-IsGranted :
    (P : Python) (plan : Value) (config : PolicyConfig) (v : ValidatedPlan) (a : Authorization)
    → validate_execution_plan P plan ≡ ok v
    → any has_error v.requests ≡ false
    → authorize P plan config ≡ ok a
    → (cfg : PolicyConfig) × (normalized P config ≡ ok cfg)
      × All (λ d. d.decision ≡ allow → IsGranted P cfg v.plan.goal d.request) a.decisions
unfolding authorize authorize_plan
authorize-IsGranted P plan config v a h clean k = invert k λ w hw k1.
    authorize_step P config v a clean
      (subst (λ x. authorize_plan P config x ≡ ok a) (ok-injective _ _ (sym hw ∙ h)) k1)
