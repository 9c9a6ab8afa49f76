-- ===== src/Agent/Orchestrator/Laws/Retry.antt =====
-- src/r_sandbox/agent/orchestrator.py: what a next round stands on.
use r_sandbox.Prelude.{
  ◌≡◌, refl, sym, ap, ◌∙◌, subst, Bool, true, false, not, ◌||◌, is_empty, if◌then◌else◌, arith,
  Result, ok, invert, ok-injective,
}
use r_sandbox.Python.{Python}
use r_sandbox.System.{Trace, lift, Host}
use r_sandbox.System.Laws.{invert_run}
use r_sandbox.Models.Records.{ExecutionPlan, Authorization, Reflection, pending}
use r_sandbox.Models.Report.{AgentReport}
use r_sandbox.Models.Sandbox.{SandboxSpec}
use r_sandbox.Models.Value.{Value, plan_value}
use r_sandbox.Policy.Engine as Engine
use r_sandbox.Observe.Replan as Replan
use r_sandbox.Agent.Orchestrator.Services.{AgentMode, analyze, dry_run, shadow, Services, Order}
use r_sandbox.Agent.Orchestrator.Parts.{required_authority_denied, same_plan}
use r_sandbox.Agent.Orchestrator.Survey.{Surveyed}
use r_sandbox.Agent.Orchestrator.Round.{
  Loop, Ending, stopped, again, retry, try_candidate, shadow_report, dry_report, run_sandbox,
  plan_sandbox, started_report, in_mode,
}

-- A loop that may go on to this one: the replanner's plan is another one, and the policy's
-- authorization of it holds nothing back and denies nothing that every run needs.
pub record IsRetry (P : Python) (u : Order) (s : Surveyed) (l next : Loop) : Type 0 where
  pub reflection : Reflection
  pub asked : reflection.should_retry ≡ true
  pub replanned :
      Replan.replan P l.current_plan reflection u.repository u.snapshot_digest
        u.authorization_context
      ≡ ok next.current_plan
  pub other : same_plan next.current_plan l.current_plan ≡ false
  pub authorized :
      Engine.authorize P (plan_value next.current_plan) s.config ≡ ok next.authorization
  pub nothing_pending : is_empty (pending next.authorization) ≡ true
  pub nothing_required : required_authority_denied next.authorization ≡ false

if-again :
    (b : Bool) (x y next : Loop)
    → (if b then stopped x else again y) ≡ again next
    → (b ≡ false) × (y ≡ next)
if-again true x y next h = cc h
if-again false x y next h = (refl, cc h)

neither : (a b : Bool) → not a || b ≡ false → (a ≡ true) × (b ≡ false)
neither a b h = (ground arith, ground arith)

retry-again :
    (l : Loop) (r : Reflection) (c : ExecutionPlan) (a : Authorization) (next : Loop)
    → retry l r c a ≡ again next
    → (next.current_plan ≡ c)
      × (next.authorization ≡ a)
      × (is_empty (pending a) ≡ true)
      × (required_authority_denied a ≡ false)
unfolding retry
retry-again l r c a next h =
    let (free, e) =
      if-again (not (is_empty (pending a)) || required_authority_denied a) _ _ next h in
    let (held, needed) = neither (is_empty (pending a)) (required_authority_denied a) free in
    (
      sym (ap (λ (x : Loop). x.current_plan) e),
      sym (ap (λ (x : Loop). x.authorization) e),
      held,
      needed,
    )

-- The branch of a test that can go on.
if-ok {ℓ} :
    {C : Type ℓ} (b : Bool) (x : Loop) (y : Result Ending) (next : Loop)
    → (if b then ok (stopped x) else y) ≡ ok (again next)
    → (b ≡ false → y ≡ ok (again next) → C)
    → C
if-ok true x y next h k = cc h
if-ok false x y next h k = k refl h

module _ (P : Python) (u : Order) (s : Surveyed) where
  -- A round goes on only to another plan of the replanner, under the policy's authorization of that
  -- plan, with nothing held for approval and nothing denied that every run needs; and only if an
  -- attempt is left.
  pub shadow_report-IsRetry :
      (last : Bool) (l next : Loop) (raw : Value)
      → shadow_report P u s last l raw ≡ ok (again next)
      → IsRetry P u s l next × (last ≡ false)
  unfolding shadow_report try_candidate
  shadow_report-IsRetry last l next raw h = invert h λ e p1 h1. invert h1 λ r p2 h2.
      invert h2 λ report p3 h3. if-ok (not r.should_retry || last) _ _ next h3 λ goes_on h4.
        invert h4 λ c p5 h5. if-ok (same_plan c l.current_plan) _ _ next h5 λ other h6.
          invert h6 λ a p7 h7.
            let (asked, left) = neither r.should_retry last goes_on in
            let (fits, answers, held, needed) =
              retry-again (record l { current_report = report }) r c a next (ok-injective _ _ h7) in
            (
              record {
                reflection = r;
                asked = asked;
                replanned = p5 ∙ ap ok (sym fits);
                other = subst (λ x. same_plan x l.current_plan ≡ false) (sym fits) other;
                authorized =
                    subst (λ x. Engine.authorize P (plan_value x) s.config ≡ ok next.authorization)
                      (sym fits) (p7 ∙ ap ok (sym answers));
                nothing_pending = subst (λ x. is_empty (pending x) ≡ true) (sym answers) held;
                nothing_required =
                    subst (λ x. required_authority_denied x ≡ false) (sym answers) needed;
              },
              left,
            )

  dry_report-returned : (l next : Loop) (raw : Value) → dry_report P s l raw ≡ ok (again next) → ⊥
  unfolding dry_report
  dry_report-returned l next raw h =
      invert h λ e p1 h1. invert h1 λ a p2 h2. invert h2 λ r p3 h3. cc (h3)

-- The report of the loop is not read.
shadow_report-any_report :
    (P : Python) (u : Order) (s : Surveyed) (last : Bool) (l next : Loop) (raw : Value)
    (r : AgentReport)
    → shadow_report P u s last (record l { current_report = r }) raw ≡ ok (again next)
    → IsRetry P u s l next × (last ≡ false)
shadow_report-any_report P u s last l next raw r h =
    let (i, left) = shadow_report-IsRetry P u s last (record l { current_report = r }) next raw h in
    (
      record {
        reflection = i.reflection;
        asked = i.asked;
        replanned = i.replanned;
        other = i.other;
        authorized = i.authorized;
        nothing_pending = i.nothing_pending;
        nothing_required = i.nothing_required;
      },
      left,
    )

-- The same for a whole round behind the build.
pub in_mode-IsRetry :
    (P : Python) (H : Host) (S : Services) (u : Order) (s : Surveyed) (mode : AgentMode)
    (last : Bool) (l next : Loop) (spec : SandboxSpec) (t t' : Trace)
    → in_mode P H S u s mode last l spec t ≡ (ok (again next), t')
    → IsRetry P u s l next × (last ≡ false)
unfolding in_mode lift
in_mode-IsRetry P H S u s dry_run last l next spec t t' h =
    invert_run (plan_sandbox S spec) _ t h
      λ raw t'' p h1. absurd (dry_report-returned P u s l next raw (ap (λ x. x.0) h1))
in_mode-IsRetry P H S u s analyze last l next spec t t' h =
    invert_run (run_sandbox S spec) _ t h λ raw t'' p h1.
      shadow_report-any_report P u s last l next raw (started_report l.current_report)
        (ap (λ x. x.0) h1)
in_mode-IsRetry P H S u s shadow last l next spec t t' h =
    invert_run (run_sandbox S spec) _ t h λ raw t'' p h1.
      shadow_report-any_report P u s last l next raw (started_report l.current_report)
        (ap (λ x. x.0) h1)
