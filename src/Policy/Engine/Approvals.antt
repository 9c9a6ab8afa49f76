-- ===== src/Policy/Engine/Approvals.antt =====
-- src/r_sandbox/policy/engine.py: `authorize` under two sets of approved ids.
use r_sandbox.Prelude.{
  ◌≡◌, refl, sym, ap, ◌∙◌, subst, ◌↔◌, inl, inr, false, Option, none, some, List, [], ◌∷◌, arith,
  Text, any, same, one_of, ok, invert, invert_guard, ok-injective, Bool-cases,
}
use r_sandbox.Python.{Python}
use r_sandbox.Models.Enums.{
  CapabilityCategory, filesystem, network, process, secret, device, resource, side_effect, allow,
  deny, require_approval,
}
use r_sandbox.Models.Records.{CapabilityRequest, PolicyDecision, Authorization}
use r_sandbox.Models.Value.{Value}
use r_sandbox.Policy.Checks.{valid_confidence}
use r_sandbox.Policy.Plan.{ValidatedRequest, ValidatedPlan, validate_execution_plan, has_error}
use r_sandbox.Policy.Config.{PolicyConfig, normalized, numeric_config_error}
use r_sandbox.Policy.Handlers.{Answer}
use r_sandbox.Policy.Engine.{
  evaluate, evaluate_as, with_approval, decided, identified, decide, decide_all, authorize_plan,
  authorize,
}

abbrev pub approving : List Text → PolicyConfig → PolicyConfig
approving approved c = record c { approved_request_ids = approved }

-- The same requests, and the same of them denied.
abbrev pub SameDenials : List PolicyDecision → List PolicyDecision → Type 0
SameDenials [] [] = Unit
SameDenials (d ∷ ds) (e ∷ es) =
    (d.request ≡ e.request) × ((d.decision ≡ deny) ↔ (e.decision ≡ deny)) × SameDenials ds es
SameDenials _ _ = ⊥

evaluate-approving :
    (P : Python) (c : PolicyConfig) (ids : List Text) (r : CapabilityRequest)
    (k : CapabilityCategory)
    → evaluate_as P (approving ids c) r k ≡ evaluate_as P c r k
unfolding evaluate_as
evaluate-approving P c ids r filesystem = refl
evaluate-approving P c ids r network = refl
evaluate-approving P c ids r process = refl
evaluate-approving P c ids r secret = refl
evaluate-approving P c ids r device = refl
evaluate-approving P c ids r resource = refl
evaluate-approving P c ids r side_effect = refl

with_approval-deny :
    (c : PolicyConfig) (id : Text) (a : Answer) → ((with_approval c id a).0 ≡ deny) ↔ (a.0 ≡ deny)
unfolding with_approval
with_approval-deny c id (allow, t) = (λ h. h, λ h. h)
with_approval-deny c id (deny, t) = (λ h. h, λ h. refl)
with_approval-deny c id (require_approval, t) = (λ h. ground arith, λ h. cc)

abbrev SameAnswer : PolicyDecision → PolicyDecision → Type 0
SameAnswer d e = (d.request ≡ e.request) × ((d.decision ≡ deny) ↔ (e.decision ≡ deny))

module _ (P : Python) (c : PolicyConfig) (old_ids new_ids : List Text) where
  same_denial :
      (r : CapabilityRequest) (id : Text)
      → ((with_approval (approving old_ids c) id (evaluate P (approving old_ids c) r)).0 ≡ deny)
        ↔ ((with_approval (approving new_ids c) id (evaluate P (approving new_ids c) r)).0 ≡ deny)
  unfolding evaluate
  same_denial r id =
      let left = with_approval-deny (approving old_ids c) id (evaluate P (approving old_ids c) r) in
      let right =
        with_approval-deny (approving new_ids c) id (evaluate P (approving new_ids c) r) in
      let same_rule : evaluate P (approving old_ids c) r ≡ evaluate P (approving new_ids c) r =
        evaluate-approving P c old_ids r r.category
        ∙ sym (evaluate-approving P c new_ids r r.category) in
      (
        λ h. right.1 (sym (ap (λ x. x.0) same_rule) ∙ left.0 h),
        λ h. left.1 (ap (λ x. x.0) same_rule ∙ right.0 h),
      )

  identified-SameAnswer :
      (r : CapabilityRequest) (x : Text)
      → SameAnswer (identified P (approving old_ids c) r x) (identified P (approving new_ids c) r x)
  unfolding identified decided
  identified-SameAnswer r x = elim (Bool-cases (same r.request_id x)) [
    | inl fits ↦ rw fits (refl, same_denial r r.request_id)
    | inr differs ↦ rw differs (refl, (λ h. h, λ h. h))
  ]

  decide-SameAnswer :
      (goal : Text) (e : Option Text) (r : CapabilityRequest) (d d' : PolicyDecision)
      → decide P (approving old_ids c) goal e r ≡ ok d
      → decide P (approving new_ids c) goal e r ≡ ok d'
      → SameAnswer d d'
  unfolding decide
  decide-SameAnswer goal (some e) r d d' h k = subst (SameAnswer d) (ok-injective _ _ k) (
      subst (λ x. SameAnswer x (decided r (deny, e))) (ok-injective _ _ h) (refl, (λ p. p, λ p. p)))
  decide-SameAnswer goal none r d d' h k = elim (Bool-cases (valid_confidence r.confidence)) [
    | inl valid ↦ invert (rw valid at h) λ x hx h1. invert (rw valid at k) λ y hy k1.
        subst (SameAnswer d) (ok-injective _ _ k1) (
          subst (λ z. SameAnswer z (identified P (approving new_ids c) r y)) (ok-injective _ _ h1)
            (rw (ok-injective _ _ (sym hx ∙ hy)) (identified-SameAnswer r y)))
    | inr invalid ↦
        let both : d ≡ d' =
          sym (ok-injective _ _ (rw invalid at h)) ∙ ok-injective _ _ (rw invalid at k) in
        subst (SameAnswer d) both (refl, (λ p. p, λ p. p))
  ]

  decide_all-SameDenials :
      (goal : Text) (e : Option Text) (seen : List Text) (vs : List ValidatedRequest)
      (ds ds' : List PolicyDecision)
      → decide_all P (approving old_ids c) goal e seen vs ≡ ok ds
      → decide_all P (approving new_ids c) goal e seen vs ≡ ok ds'
      → SameDenials ds ds'
  unfolding decide_all
  decide_all-SameDenials goal e seen [] ds ds' h k =
      subst (SameDenials ds) (ok-injective _ _ k)
        (subst (λ x. SameDenials x []) (ok-injective _ _ h) tt)
  decide_all-SameDenials goal e seen (v ∷ vs) ds ds' h k =
      elim (Bool-cases (one_of v.request.request_id seen)) [
        | inl old ↦ decide_all-SameDenials goal e seen vs ds ds' (rw old at h) (rw old at k)
        | inr new ↦ invert (rw new at h) λ d p h1. invert h1 λ rest q h2.
            invert (rw new at k) λ d' p' k1. invert k1 λ rest' q' k2.
              let one = decide-SameAnswer goal e v.request d d' p p' in
              subst (SameDenials ds) (ok-injective _ _ k2) (
                subst (λ x. SameDenials x (d' ∷ rest')) (ok-injective _ _ h2)
                  (
                    one.0,
                    one.1,
                    decide_all-SameDenials goal e (v.request.request_id ∷ seen) vs rest rest' q q',
                  ))
      ]

  -- Normalization treats the two configurations alike.
  normalized-approving :
      (d e : PolicyConfig)
      → normalized P (approving old_ids c) ≡ ok d
      → normalized P (approving new_ids c) ≡ ok e
      → (n : PolicyConfig) × (d ≡ approving old_ids n) × (e ≡ approving new_ids n)
  unfolding normalized
  normalized-approving d e h k = invert_guard _ _ h λ _ h1. invert_guard _ _ h1 λ _ h2.
      invert_guard _ _ h2 λ _ h3. invert_guard _ _ h3 λ _ h4. invert_guard _ _ h4 λ _ h5.
        invert h5 λ root hr h6. invert h6 λ allowed ha h7. invert_guard _ _ k λ _ k1.
          invert_guard _ _ k1 λ _ k2. invert_guard _ _ k2 λ _ k3. invert_guard _ _ k3 λ _ k4.
            invert_guard _ _ k4 λ _ k5. invert k5 λ root' kr k6. invert k6 λ allowed' ka k7.
              let same_root = ok-injective _ _ (sym kr ∙ hr) in
              let same_list = ok-injective _ _ (sym ka ∙ ha) in
              (
                record c {
                  repository = root;
                  output = P.resolve c.output;
                  network_allowlist = allowed;
                },
                sym (ok-injective _ _ h7),
                sym (ok-injective _ _ k7) ∙ (rw (same_root, same_list)),
              )

numeric_config_error-approving :
    (ids : List Text) (c : PolicyConfig)
    → numeric_config_error (approving ids c) ≡ numeric_config_error c
unfolding numeric_config_error
numeric_config_error-approving ids c = refl

-- The loop's run under a configuration, moved to an equal one.
moved :
    (P : Python) (ids : List Text) (d n : PolicyConfig) (goal : Text) (vs : List ValidatedRequest)
    {ds : List PolicyDecision}
    → d ≡ approving ids n
    → decide_all P d goal (numeric_config_error d) [] vs ≡ ok ds
    → decide_all P (approving ids n) goal (numeric_config_error n) [] vs ≡ ok ds
moved P ids d n goal vs {ds} e h =
    rw (← numeric_config_error-approving ids n)
      (subst (λ x. decide_all P x goal (numeric_config_error x) [] vs ≡ ok ds) e h)

authorize_plan-SameDenials :
    (P : Python) (c : PolicyConfig) (old_ids new_ids : List Text) (v : ValidatedPlan)
    (a b : Authorization)
    → any has_error v.requests ≡ false
    → authorize_plan P (approving old_ids c) v ≡ ok a
    → authorize_plan P (approving new_ids c) v ≡ ok b
    → SameDenials a.decisions b.decisions
unfolding authorize_plan
authorize_plan-SameDenials P c old_ids new_ids v a b clean h k = invert (rw clean at h) λ d nd h1.
    invert h1 λ ds pd h2. invert (rw clean at k) λ e ne k1. invert k1 λ es pe k2.
      let (n, dn, en) = normalized-approving P c old_ids new_ids d e nd ne in
      subst (λ x. SameDenials a.decisions x.decisions) (ok-injective _ _ k2)
        (subst (λ x. SameDenials x.decisions es) (ok-injective _ _ h2)
          (decide_all-SameDenials P n old_ids new_ids v.plan.goal _ [] v.requests ds es
            (moved P old_ids d n v.plan.goal v.requests dn pd)
            (moved P new_ids e n v.plan.goal v.requests en pe)))

-- Approvals never turn a DENY around, nor bring one about: two runs of the engine on one
-- well-shaped plan, under configurations that differ in the approved ids alone, answer the same
-- requests and deny the same of them.
pub authorize-SameDenials :
    (P : Python) (plan : Value) (c : PolicyConfig) (old_ids new_ids : List Text) (v : ValidatedPlan)
    (a b : Authorization)
    → validate_execution_plan P plan ≡ ok v
    → any has_error v.requests ≡ false
    → authorize P plan (approving old_ids c) ≡ ok a
    → authorize P plan (approving new_ids c) ≡ ok b
    → SameDenials a.decisions b.decisions
unfolding authorize
authorize-SameDenials P plan c old_ids new_ids v a b valid clean h k = invert h λ w hw h1.
    invert k λ w' kw k1.
      authorize_plan-SameDenials P c old_ids new_ids v a b clean
        (subst (λ x. authorize_plan P (approving old_ids c) x ≡ ok a)
          (ok-injective _ _ (sym hw ∙ valid)) h1)
        (subst (λ x. authorize_plan P (approving new_ids c) x ≡ ok b)
          (ok-injective _ _ (sym kw ∙ valid)) k1)
