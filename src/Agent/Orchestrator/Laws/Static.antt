-- ===== src/Agent/Orchestrator/Laws/Static.antt =====
-- src/r_sandbox/agent/orchestrator.py: the runs that go no further than their analysis.
use r_sandbox.Prelude.{
  ℕ, ◌≡◌, refl, sym, ap, ◌∙◌, subst, Bool, true, false, ◌||◌, List, [], ◌∷◌, lit, any, same,
  same_refl, starts_with, is_empty, if◌then◌else◌, arith, Text, Raised, Result, ok, err, invert,
  ok-injective, Option-cases, inl, inr,
}
use r_sandbox.Python.{Python}
use r_sandbox.System.{
  opened_snapshot, closed_snapshot, Trace, Run, lift, ask, continue, ◌then_run◌, Host,
}
use r_sandbox.System.Laws.{ask-trace}
use r_sandbox.Models.Records.{PolicyDecision, RepositoryProfile, Authorization}
use r_sandbox.Models.Report.{AgentReport}
use r_sandbox.Models.Value.{Value, plan_value}
use r_sandbox.Policy.Request.{quarantine_request}
use r_sandbox.Policy.Plan.{ValidatedRequest, ValidatedPlan, validate_execution_plan, has_error}
use r_sandbox.Policy.Config.{PolicyConfig}
use r_sandbox.Policy.Engine.{
  aborted_reason, decided, quarantined, quarantine_all, authorize_plan, authorize,
}
use r_sandbox.Agent.Orchestrator.Services.{analyze, Services, Snapshot, Order}
use r_sandbox.Agent.Orchestrator.Parts.{as_mode, malformed_proposal_rejected}
use r_sandbox.Agent.Orchestrator.Survey.{
  Surveyed, localized, survey_profile, survey, rejected_report,
}
use r_sandbox.Agent.Orchestrator.Run.{by_mode, dynamic, authorized, run_snapshot}
use r_sandbox.Agent.Orchestrator.Entry.{
  Request, Checked, checked, order_of, open_snapshot, in_snapshot, run,
}
use r_sandbox.Agent.Orchestrator.Laws.Effects.{checked-mode, in_snapshot-trace}

if-trace {ℓ} :
    {A : Type ℓ} (b : Bool) (x y : Run A) (t : Trace)
    → (x t).1 ≡ t
    → (y t).1 ≡ t
    → ((if b then x else y) t).1 ≡ t
if-trace true x y t h k = h
if-trace false x y t h k = k

module _ (P : Python) (H : Host) (S : Services) (u : Order) (s : Surveyed) where
  by_mode-analyze : (r : AgentReport) (t : Trace) → (by_mode P H S u s analyze r t).1 ≡ t
  unfolding by_mode lift
  by_mode-analyze r t = refl

  authorized-analyze : u.mode ≡ analyze → (t : Trace) → (authorized P H S u s t).1 ≡ t
  unfolding authorized dynamic lift
  authorized-analyze e t = if-trace (malformed_proposal_rejected s.first_authorization) _ _ t refl (
      ask-trace (λ x. x ≡ t) _ _ t refl
        λ r.
          if-trace (is_empty s.first_plan.steps) _ _ t refl
            (subst (λ m. (by_mode P H S u s m r t).1 ≡ t) (sym e) (by_mode-analyze r t)))

run_snapshot-analyze :
    (P : Python) (H : Host) (S : Services) (u : Order) (t : Trace)
    → u.mode ≡ analyze
    → (run_snapshot P H S u t).1 ≡ t
unfolding run_snapshot
run_snapshot-analyze P H S u t e =
    ask-trace (λ x. x ≡ t) (survey P S u) (authorized P H S u) t refl
      λ s. authorized-analyze P H S u s e t

-- What a run has done that touched nothing but the snapshot: it opened none, or the one that it
-- asked for could not be made, or it opened one and closed it again.
pub data OnlySnapshot (S : Services) (t : Trace) : Trace → Type 0 where
  unopened : OnlySnapshot S t t
  unopenable :
      (repository : Text) (e : Raised)
      → S.snapshot t repository ≡ err e
      → OnlySnapshot S t (opened_snapshot repository ∷ t)
  closed :
      (repository : Text) (s : Snapshot)
      → S.snapshot t repository ≡ ok s
      → OnlySnapshot S t (closed_snapshot s.root ∷ opened_snapshot repository ∷ t)

-- A run in the mode "analyze" does nothing but open and close its snapshot, whether it returns or
-- raises: it makes no output directory, inventories none and starts neither supervisor.
pub run-analyze :
    (P : Python) (H : Host) (S : Services) (q : Request) (t : Trace)
    → as_mode q.mode ≡ ok analyze
    → OnlySnapshot S t (run P H S q t).1
unfolding run open_snapshot order_of ask ◌then_run◌ continue
run-analyze P H S q t e = outer (checked H q t) refl
  where
    inner :
        (c : Checked) (r : Result Snapshot)
        → c.mode ≡ analyze
        → S.snapshot t c.repository ≡ r
        → OnlySnapshot S t
            (continue (in_snapshot P H S q c) (r, opened_snapshot c.repository ∷ t)).1
    inner c (err x) m h = unopenable c.repository x h
    inner c (ok s) m h =
        let t' = opened_snapshot c.repository ∷ t in
        subst (OnlySnapshot S t)
          (sym (
            in_snapshot-trace P H S q c s t'
            ∙ ap (λ x. closed_snapshot s.root ∷ x)
                (run_snapshot-analyze P H S (order_of q c s) t' m)))
          (closed c.repository s h)

    outer :
        (r : Result Checked)
        → checked H q t ≡ r
        → OnlySnapshot S t
            (continue (λ c. open_snapshot S c.repository then_run in_snapshot P H S q c) (r, t)).1
    outer (err x) h = unopened
    outer (ok c) h =
        inner c (S.snapshot t c.repository) (ok-injective _ _ (sym (checked-mode H q t c h) ∙ e))
          refl

-- The test on one decision of `_malformed_proposal_rejected`.
abbrev is_rejection : PolicyDecision → Bool
is_rejection d =
    same d.request.action (lit "invalid_proposal")
    || starts_with d.reason (lit "Authorization aborted because the plan contains")

or_true : (a b : Bool) → b ≡ true → a || b ≡ true
or_true a b h = ground arith

or_left : (a b : Bool) → a ≡ true → a || b ≡ true
or_left a b h = ground arith

quarantined-is_rejection :
    (P : Python) (n : ℕ) (v : ValidatedRequest) → is_rejection (quarantined P n v) ≡ true
unfolding quarantined aborted_reason quarantine_request starts_with lit decided
quarantined-is_rejection P n v = elim (Option-cases v.error) [
  | inl clean ↦ rw (clean, quarantined) (or_true _ _ refl)
  | inr (e, wrong) ↦ rw (wrong, quarantined) (or_left _ _ (same_refl (lit "invalid_proposal")))
]

quarantine_all-any :
    (P : Python) (n : ℕ) (vs : List ValidatedRequest)
    → any has_error vs ≡ true
    → any is_rejection (quarantine_all P n vs) ≡ true
unfolding quarantine_all
quarantine_all-any P n [] h = cc h
quarantine_all-any P n (v ∷ vs) h = or_left _ _ (quarantined-is_rejection P n v)

authorize-malformed :
    (P : Python) (plan : Value) (config : PolicyConfig) (v : ValidatedPlan) (a : Authorization)
    → validate_execution_plan P plan ≡ ok v
    → any has_error v.requests ≡ true
    → authorize P plan config ≡ ok a
    → malformed_proposal_rejected a ≡ true
unfolding authorize authorize_plan malformed_proposal_rejected
authorize-malformed P plan config v a h bad k = invert k λ w hw k1.
    let same_plan : w ≡ v = ok-injective _ _ (sym hw ∙ h) in
    let k2 : authorize_plan P config v ≡ ok a =
      subst (λ x. authorize_plan P config x ≡ ok a) same_plan k1 in
    subst (λ (x : Authorization). any is_rejection x.decisions ≡ true)
      (ok-injective _ _ (rw (bad, authorize_plan) at k2)) (quarantine_all-any P 0 v.requests bad)

survey_profile-authorize :
    (P : Python) (S : Services) (u : Order) (p : RepositoryProfile) (s : Surveyed)
    → survey_profile P S u p ≡ ok s
    → authorize P (plan_value s.first_plan) s.config ≡ ok s.first_authorization
unfolding survey_profile
survey_profile-authorize P S u p s h = invert h λ c p1 h1. invert h1 λ q p2 h2. invert h2 λ a p3 h3.
    subst
      (λ (x : Surveyed). authorize P (plan_value x.first_plan) x.config ≡ ok x.first_authorization)
      (ok-injective _ _ h3) p3

-- The authorization of a survey is the policy's on its plan.
pub survey-authorize :
    (P : Python) (S : Services) (u : Order) (t : Trace) (s : Surveyed)
    → survey P S u t ≡ ok s
    → authorize P (plan_value s.first_plan) s.config ≡ ok s.first_authorization
unfolding survey
survey-authorize P S u t s h =
    invert h λ p p1 h1. survey_profile-authorize P S u (localized u p) s h1

if-true {ℓ} :
    {A : Type ℓ} (b : Bool) (x y : Run A) (t : Trace) → b ≡ true → (if b then x else y) t ≡ x t
if-true true x y t h = refl
if-true false x y t h = cc h

-- A plan with one malformed request ends `_run_snapshot` at once, in every mode: the report is the
-- one on the rejected proposal, and in it nothing was made, built or started.
pub run_snapshot-malformed :
    (P : Python) (H : Host) (S : Services) (u : Order) (t : Trace) (s : Surveyed)
    (v : ValidatedPlan)
    → survey P S u t ≡ ok s
    → validate_execution_plan P (plan_value s.first_plan) ≡ ok v
    → any has_error v.requests ≡ true
    → run_snapshot P H S u t ≡ (rejected_report P s, t)
unfolding run_snapshot authorized ◌then_run◌ ask continue lift
run_snapshot-malformed P H S u t s v surveyed valid bad =
    let a =
      authorize-malformed P (plan_value s.first_plan) s.config v s.first_authorization valid bad
        (survey-authorize P S u t s surveyed) in
    ap (λ r. continue (authorized P H S u) (r, t)) surveyed
    ∙ if-true (malformed_proposal_rejected s.first_authorization) _ _ t a
