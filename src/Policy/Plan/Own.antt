-- ===== src/Policy/Plan/Own.antt =====
-- src/r_sandbox/policy/proposal_validation.py: `canonical_authorization` on the object of a typed
-- authorization.
use r_sandbox.Prelude.{
  ℕ, ◌+◌, ◌≡◌, refl, sym, ap, ap₂, ◌∙◌, subst, Option, none, some, List, [], ◌∷◌, map, value_error,
  ok, invert, ok-injective,
}
use r_sandbox.Python.{Python}
use r_sandbox.Models.Records.{Number, Evidence, CapabilityRequest, PolicyDecision, Authorization}
use r_sandbox.Models.Value.{
  Value, items, values, items-values, line_value, evidence_value, request_value, decision_value,
  authorization_value,
}
use r_sandbox.Policy.Request.{as_tuple}
use r_sandbox.Policy.Request.Laws.{canonical_request-eq-ok}
use r_sandbox.Policy.Plan.Requests.{require_text-eq-ok}
use r_sandbox.Policy.Plan.{
  as_decision, canonical_decision, canonical_decisions, canonical_authorization,
}

line_value-injective : (a b : Option Number) → line_value a ≡ line_value b → a ≡ b
line_value-injective none none h = refl
line_value-injective none (some b) h = cc h
line_value-injective (some a) none h = cc h
line_value-injective (some a) (some b) h = cc h

evidence_value-injective : (a b : Evidence) → evidence_value a ≡ evidence_value b → a ≡ b
evidence_value-injective a b h = let l = line_value-injective a.line b.line (cc h) in cc (h, l)

evidence_values-injective :
    (xs bs : List Evidence) → map evidence_value xs ≡ map evidence_value bs → xs ≡ bs
evidence_values-injective [] [] h = refl
evidence_values-injective [] (b ∷ bs) h = cc h
evidence_values-injective (a ∷ more) [] h = cc h
evidence_values-injective (a ∷ more) (b ∷ bs) h =
    ap₂ (λ x xs. x ∷ xs) (evidence_value-injective a b (cc h))
      (evidence_values-injective more bs (cc h))

values-injective : (xs bs : List Value) → values xs ≡ values bs → xs ≡ bs
values-injective xs bs h = sym (items-values xs) ∙ (ap items h ∙ items-values bs)

request_value-injective : (r q : CapabilityRequest) → request_value r ≡ request_value q → r ≡ q
request_value-injective r q h =
    let e = evidence_values-injective r.evidence q.evidence (values-injective _ _ (cc h)) in
    cc (h, e)

canonical_decision-own :
    (P : Python) (n : ℕ) (d e : PolicyDecision)
    → canonical_decision P n (decision_value d) ≡ ok e
    → d ≡ e
unfolding canonical_decision as_decision
canonical_decision-own P n d e h = invert h λ k p1 h1. invert h1 λ t p2 h2. invert h2 λ r p3 h3.
    invert h3 λ _ p4 h4.
      let same_request : d.request ≡ r =
        request_value-injective d.request r
          (canonical_request-eq-ok (request_value d.request) _ (value_error []) r p3).0 in
      let same_reason : Value.text d.reason ≡ Value.text t =
        (require_text-eq-ok (Value.text d.reason) _ _ t p2).0 in
      let same_decision : d.decision ≡ k = ok-injective _ _ p1 in
      subst (λ x. d ≡ x) (ok-injective _ _ h4) (cc (same_request, same_reason, same_decision))

canonical_decisions-own :
    (P : Python) (n : ℕ) (ds es : List PolicyDecision)
    → canonical_decisions P n (map decision_value ds) ≡ ok es
    → ds ≡ es
unfolding canonical_decisions
canonical_decisions-own P n [] es h = ok-injective _ _ h
canonical_decisions-own P n (d ∷ ds) es h = invert h λ e p1 h1. invert h1 λ fs p2 h2.
    ap₂ (λ x xs. x ∷ xs) (canonical_decision-own P n d e p1)
      (canonical_decisions-own P (n + 1) ds fs p2)
    ∙ ok-injective _ _ h2

-- An authorization of the policy that passes the boundary of the runtime is unchanged.
pub canonical_authorization-own :
    (P : Python) (a b : Authorization)
    → canonical_authorization P (authorization_value a) ≡ ok b
    → a ≡ b
unfolding canonical_authorization as_tuple
canonical_authorization-own P a b h = invert h λ vs p1 h1. invert h1 λ _ p2 h2.
    invert h2 λ ds p3 h3.
      let same_values : vs ≡ map decision_value a.decisions =
        sym (ok-injective _ _ p1) ∙ items-values _ in
      let same_decisions =
        canonical_decisions-own P 0 a.decisions ds
          (subst (λ x. canonical_decisions P 0 x ≡ ok ds) same_values p3) in
      ap (λ x. record { decisions = x }) same_decisions ∙ ok-injective _ _ h3
