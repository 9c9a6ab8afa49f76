-- ===== src/Assess/Verdicts.antt =====
-- src/r_sandbox/agent/security_assessor.py: what the verdicts of `assess` rest on.
use r_sandbox.Prelude.{
  ◌≤◌, ◌≡◌, refl, sym, ap, ◌∙◌, subst, ◌⊎◌, ◌≢◌, ◌↔◌, Bool, true, false, ◌&&◌, ◌||◌, Option, List,
  [], ◌∷◌, arith, Text, length, any, filter, All, ok, invert, ok-injective,
}
use r_sandbox.Python.{Python}
use r_sandbox.Models.Enums.{
  safe, review, unsafe, inconclusive, is_deny, RiskLevel, low, medium, is_high, is_critical,
  is_target_telemetry,
}
use r_sandbox.Models.Records.{
  Finding, PolicyDecision, Authorization, RuntimeEvent, ExecutionResult, SecurityAssessment,
}
use r_sandbox.Models.Value.{Value}
use r_sandbox.Assess.Events.{is_trusted}
use r_sandbox.Assess.Signals.{
  Signals, gather, events_of, grants_of, is_threat, is_violation, any_critical, any_high,
  is_unavailable,
}
use r_sandbox.Assess.Assessor.{
  risk_score, base_score, raised_by, decide_verdict, assess_canonical, assess,
}

ladder-ne-safe : (s : Signals) → (decide_verdict s).0 ≢ safe
unfolding decide_verdict
ladder-ne-safe s h = ground arith

ladder-unsafe : (s : Signals) → ((decide_verdict s).0 ≡ unsafe) ↔ (s.trusted_danger ≡ true)
unfolding decide_verdict
ladder-unsafe s = (λ h. ground arith, λ h. ground arith)

risk_score-le : (s : Signals) → risk_score s ≤ 100
unfolding risk_score base_score raised_by
risk_score-le s = ground arith

ladder-inconclusive :
    (s : Signals)
    → (decide_verdict s).0 ≡ inconclusive
    → ((s.critical || s.high) ≡ false)
      × (s.trusted_danger ≡ false)
      × (s.target_danger ≡ false)
      × (s.resource_breach ≡ false)
      × (s.violations ≡ 0)
unfolding decide_verdict
ladder-inconclusive s h = (ground arith, ground arith, ground arith, ground arith, ground arith)

ladder-denied :
    (s : Signals)
    → 1 ≤ s.denied
    → s.unavailable ≡ false
    → ((decide_verdict s).0 ≡ review) ⊎ ((decide_verdict s).0 ≡ unsafe)
unfolding decide_verdict
ladder-denied s d u = ground arith

-- No assessment says SAFE, and no score passes 100, whatever the findings, the authorization, the
-- run and the warnings.
pub assess-ne-safe :
    (P : Python) (raw_findings raw_authorization : Value) (execution : Option Value)
    (warnings : List Text) (s : SecurityAssessment)
    → assess P raw_findings raw_authorization execution warnings ≡ ok s
    → (s.verdict ≢ safe) × (s.risk_score ≤ 100)
unfolding assess assess_canonical
assess-ne-safe P raw_findings raw_authorization execution warnings s h = invert h λ f _ h1.
    invert h1 λ a _ h2. invert h2 λ e _ h3.
      subst (λ x. (x.verdict ≢ safe) × (x.risk_score ≤ 100)) (ok-injective _ _ h3)
        (ladder-ne-safe (gather P f a e warnings), risk_score-le (gather P f a e warnings))

any-filter {ℓ} :
    {A : Type ℓ} (p q : A → Bool) (xs : List A) → any (λ x. p x && q x) xs ≡ any p (filter q xs)
any-filter p q [] = refl
any-filter p q (x ∷ xs) = ground (arith, any-filter p q xs)

-- The events that the supervisor or an independent observer vouches for.
abbrev pub trusted_events : Option ExecutionResult → List RuntimeEvent
trusted_events e = filter (λ x. is_trusted x.source) (events_of e)

-- UNSAFE is decided by the trusted events alone: it holds exactly if one of them is dangerous and
-- not authorized.
pub unsafe_iff :
    (P : Python) (findings : List Finding) (a : Authorization) (e : Option ExecutionResult)
    (warnings : List Text)
    → ((assess_canonical P findings a e warnings).verdict ≡ unsafe)
      ↔ (any (is_threat P (grants_of P a)) (trusted_events e) ≡ true)
unfolding assess_canonical gather
unsafe_iff P findings a e warnings =
    let ladder = ladder-unsafe (gather P findings a e warnings) in
    let split = any-filter (is_threat P (grants_of P a)) (λ x. is_trusted x.source) (events_of e) in
    (λ h. sym split ∙ ladder.0 h, λ h. ladder.1 (split ∙ h))

-- What the target reports cannot make a run UNSAFE, nor hide that it is: two runs with the same
-- trusted events are both UNSAFE or neither, whatever telemetry, output and exit code they have.
pub unsafe-trusted_events :
    (P : Python) (findings : List Finding) (a : Authorization) (e e' : Option ExecutionResult)
    (warnings : List Text)
    → trusted_events e ≡ trusted_events e'
    → ((assess_canonical P findings a e warnings).verdict ≡ unsafe)
      ↔ ((assess_canonical P findings a e' warnings).verdict ≡ unsafe)
unsafe-trusted_events P findings a e e' warnings h =
    let left = unsafe_iff P findings a e warnings in
    let right = unsafe_iff P findings a e' warnings in
    let same_threats = ap (any (is_threat P (grants_of P a))) h in
    (λ u. right.1 (sym same_threats ∙ left.0 u), λ u. left.1 (same_threats ∙ right.0 u))

abbrev pub IsMinor : Finding → Type 0
IsMinor f = (f.risk ≡ low) ⊎ (f.risk ≡ medium)

IsMinor-findings : (fs : List Finding) → (any_critical fs || any_high fs) ≡ false → All IsMinor fs
unfolding any_critical any_high
IsMinor-findings [] h = tt
IsMinor-findings (f ∷ fs) h =
    (minor_risk f.risk (ground arith) (ground arith), IsMinor-findings fs (ground arith))
  where
    minor_risk :
        (r : RiskLevel) → is_critical r ≡ false → is_high r ≡ false → (r ≡ low) ⊎ (r ≡ medium)
    minor_risk r p q = ground arith

empty_of_length {ℓ} : {A : Type ℓ} (xs : List A) → length xs ≡ 0 → xs ≡ []
empty_of_length [] h = refl
empty_of_length (x ∷ xs) h = absurd (omega arith)

-- INCONCLUSIVE hides nothing grave: every finding is low or medium, no event of either origin is a
-- danger without a grant, and no completed behavior lies outside the contract.
pub inconclusive-IsMinor :
    (P : Python) (findings : List Finding) (a : Authorization) (e : Option ExecutionResult)
    (warnings : List Text)
    → (assess_canonical P findings a e warnings).verdict ≡ inconclusive
    → All IsMinor findings
      × (any (λ x. is_threat P (grants_of P a) x && is_trusted x.source) (events_of e) ≡ false)
      × (any (λ x. is_threat P (grants_of P a) x && is_target_telemetry x.source) (events_of e)
          ≡ false)
      × (filter (is_violation P (grants_of P a)) (events_of e) ≡ [])
unfolding assess_canonical gather
inconclusive-IsMinor P findings a e warnings h =
    let (grave, trusted, reported, _, none_outside) =
      ladder-inconclusive (gather P findings a e warnings) h in
    (IsMinor-findings findings grave, trusted, reported, empty_of_length _ none_outside)

some_denied :
    (ds : List PolicyDecision)
    → any (λ d. is_deny d.decision) ds ≡ true
    → 1 ≤ length (filter (λ d. is_deny d.decision) ds)
some_denied [] h = cc
some_denied (d ∷ ds) h = ground (arith, some_denied ds)

-- A DENY is never cleared by a run: with one among the decisions the verdict is REVIEW or UNSAFE,
-- unless the runtime was unavailable.
pub denied_verdict :
    (P : Python) (findings : List Finding) (a : Authorization) (e : Option ExecutionResult)
    (warnings : List Text)
    → any (λ d. is_deny d.decision) a.decisions ≡ true
    → is_unavailable e ≡ false
    → ((assess_canonical P findings a e warnings).verdict ≡ review)
      ⊎ ((assess_canonical P findings a e warnings).verdict ≡ unsafe)
unfolding assess_canonical gather
denied_verdict P findings a e warnings d u =
    ladder-denied (gather P findings a e warnings) (some_denied a.decisions d) u
