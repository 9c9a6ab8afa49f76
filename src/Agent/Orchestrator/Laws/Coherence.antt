-- ===== src/Agent/Orchestrator/Laws/Coherence.antt =====
-- src/r_sandbox/agent/orchestrator.py: the report that a run returns.
use r_sandbox.Prelude.{
  ℕ, zero, suc, ◌==◌, ◌≡◌, refl, ap, subst, Bool, true, false, not, ◌||◌, Option, none, some, List,
  [], ◌∷◌, ◌++◌, Text, is_empty, if◌then◌else◌, Result, ok, invert, ok-injective,
}
use r_sandbox.Python.{Python}
use r_sandbox.System.{Trace, Run, lift, ask, ◌then_run◌, Host}
use r_sandbox.System.Laws.{invert_run, invert_ask}
use r_sandbox.Models.Enums.{AgentOutcome, analyzed, blocked, is_planned}
use r_sandbox.Models.Records.{
  PlanStep, ExecutionPlan, Authorization, ExecutionResult, Reflection, pending,
}
use r_sandbox.Models.Report.{AgentReport, record_phase, note}
use r_sandbox.Models.Value.{Value}
use r_sandbox.Models.Sandbox.{SandboxSpec}
use r_sandbox.Agent.Orchestrator.Services.{AgentMode, analyze, dry_run, shadow, Services, Order}
use r_sandbox.Agent.Orchestrator.Parts.{required_authority_denied, same_plan}
use r_sandbox.Agent.Orchestrator.Survey.{Surveyed}
use r_sandbox.Agent.Orchestrator.Round.{
  Loop, Ending, returned, stopped, again, with_execution, dry_report, executed_report, retry,
  try_candidate, shadow_report, started_report, sandbox_of, run_sandbox, plan_sandbox, in_mode,
  round, next_round, rounds,
}

-- Outcomes that need no execution.
abbrev pub IsUnrun : AgentOutcome → Type 0
IsUnrun analyzed = Unit
IsUnrun blocked = Unit
IsUnrun _ = ⊥

-- The execution, its history and the outcome fit together.
abbrev pub FitTogether : Option ExecutionResult → List ExecutionResult → AgentOutcome → Type 0
FitTogether none history outcome = (history ≡ []) × IsUnrun outcome
FitTogether (some e) history outcome =
    (older : List ExecutionResult) × (history ≡ older ++ e ∷ []) × (outcome ≡ e.status)

abbrev pub IsCoherent : AgentReport → Type 0
IsCoherent r = FitTogether r.execution r.execution_history r.outcome

module _ {ℓ κ} {A : Type ℓ} (Q : A → Type κ) where
  -- What a run returns, if it returns.
  unfoldable pub Ensures : Run A → Type (ℓ ⊔ κ)
  Ensures m = (t t' : Trace) (a : A) → m t ≡ (ok a, t') → Q a

  pub lift-Ensures : (r : Result A) → ((a : A) → r ≡ ok a → Q a) → Ensures (lift r)
  unfolding Ensures lift
  lift-Ensures r h t t' a e = h a (ap (λ x. x.0) e)

  pub if-Ensures : (b : Bool) (x y : Run A) → Ensures x → Ensures y → Ensures (if b then x else y)
  if-Ensures true x y h k = h
  if-Ensures false x y h k = k

module _ {ℓ κ μ ν} {A : Type ℓ} {B : Type κ} (R : A → Type μ) (Q : B → Type ν) where
  pub then_run-Ensures :
      (m : Run A) (f : A → Run B)
      → Ensures R m
      → ((a : A) → R a → Ensures Q (f a))
      → Ensures Q (m then_run f)
  unfolding Ensures
  then_run-Ensures m f h k t t' b e = invert_run m f t e λ a t'' p q. k a (h t t'' a p) t'' t' b q

module _ {ℓ κ ν} {A : Type ℓ} {B : Type κ} (Q : B → Type ν) where
  pub rest-Ensures :
      (m : Run A) (f : A → Run B) → ((a : A) → Ensures Q (f a)) → Ensures Q (m then_run f)
  unfolding Ensures
  rest-Ensures m f k t t' b e = invert_run m f t e λ a t'' p q. k a t'' t' b q

  pub ask-Ensures :
      (g : Trace → Result A) (f : A → Run B)
      → ((a : A) (t : Trace) → g t ≡ ok a → Ensures Q (f a))
      → Ensures Q (ask g then_run f)
  unfolding Ensures
  ask-Ensures g f k t t' b e = invert_ask g f t e λ a p q. k a t p t t' b q

if-IsCoherent :
    (b : Bool) (x y : AgentReport) → IsCoherent x → IsCoherent y → IsCoherent (if b then x else y)
if-IsCoherent true x y h k = h
if-IsCoherent false x y h k = k

-- An ending with a coherent report.
abbrev pub EndsWell : Ending → Type 0
EndsWell (returned r) = IsCoherent r
EndsWell (stopped l) = IsCoherent l.current_report
EndsWell (again l) = IsCoherent l.current_report

module _ (P : Python) (s : Surveyed) where
  dry_report-EndsWell :
      (l : Loop) (raw : Value) (e : Ending) → dry_report P s l raw ≡ ok e → EndsWell e
  unfolding dry_report with_execution record_phase note
  dry_report-EndsWell l raw e h = invert h λ x p1 h1. invert h1 λ a p2 h2. invert h2 λ r p3 h3.
      subst EndsWell (ok-injective _ _ h3) (
        if-IsCoherent (is_planned x.status) _ _ (l.current_report.execution_history, refl, refl)
          (l.current_report.execution_history, refl, refl))

  executed_report-IsCoherent :
      (l : Loop) (e : ExecutionResult) (r : Reflection) (out : AgentReport)
      → executed_report P s l e r ≡ ok out
      → IsCoherent out
  unfolding executed_report with_execution record_phase
  executed_report-IsCoherent l e r out h = invert h λ a p1 h1.
      subst IsCoherent (ok-injective _ _ h1) (l.current_report.execution_history, refl, refl)

if-EndsWell : (b : Bool) (x y : Ending) → EndsWell x → EndsWell y → EndsWell (if b then x else y)
if-EndsWell true x y h k = h
if-EndsWell false x y h k = k

if_ok-EndsWell :
    (b : Bool) (x : Ending) (y : Result Ending) (e : Ending)
    → EndsWell x
    → (y ≡ ok e → EndsWell e)
    → (if b then ok x else y) ≡ ok e
    → EndsWell e
if_ok-EndsWell true x y e h k p = subst EndsWell (ok-injective _ _ p) h
if_ok-EndsWell false x y e h k p = k p

module _ (P : Python) (u : Order) (s : Surveyed) where
  retry-EndsWell :
      (l : Loop) (r : Reflection) (c : ExecutionPlan) (a : Authorization)
      → IsCoherent l.current_report
      → EndsWell (retry l r c a)
  unfolding retry record_phase note
  retry-EndsWell l r c a h =
      if-EndsWell (not (is_empty (pending a)) || required_authority_denied a) _ _ h h

  try_candidate-EndsWell :
      (l : Loop) (r : Reflection) (c : ExecutionPlan) (e : Ending)
      → IsCoherent l.current_report
      → try_candidate P u s l r c ≡ ok e
      → EndsWell e
  unfolding try_candidate note
  try_candidate-EndsWell l r c e h p =
      if_ok-EndsWell (same_plan c l.current_plan) _ _ e h
        (λ q. invert q λ a p1 q1. subst EndsWell (ok-injective _ _ q1) (retry-EndsWell l r c a h)) p

  shadow_report-EndsWell :
      (last : Bool) (l : Loop) (raw : Value) (e : Ending)
      → shadow_report P u s last l raw ≡ ok e
      → EndsWell e
  unfolding shadow_report
  shadow_report-EndsWell last l raw e h = invert h λ x p1 h1. invert h1 λ r p2 h2.
      invert h2 λ out p3 h3.
        let fits = executed_report-IsCoherent P s l x r out p3 in
        if_ok-EndsWell (not r.should_retry || last) _ _ e fits
          (λ q. invert q λ c p4 q1. try_candidate-EndsWell _ r c e fits q1) h3

module _ (P : Python) (H : Host) (S : Services) (u : Order) (s : Surveyed) where
  in_mode-EndsWell :
      (mode : AgentMode) (last : Bool) (l : Loop) (spec : SandboxSpec)
      → Ensures EndsWell (in_mode P H S u s mode last l spec)
  unfolding in_mode
  in_mode-EndsWell dry_run last l spec =
      rest-Ensures EndsWell (plan_sandbox S spec) _
        λ raw. lift-Ensures EndsWell _ λ e h. dry_report-EndsWell P s l raw e h
  in_mode-EndsWell analyze last l spec = rest-Ensures EndsWell (run_sandbox S spec) _ λ raw.
      lift-Ensures EndsWell _ λ e h.
        shadow_report-EndsWell P u s last
          (record l { current_report = started_report l.current_report }) raw e h
  in_mode-EndsWell shadow last l spec = rest-Ensures EndsWell (run_sandbox S spec) _ λ raw.
      lift-Ensures EndsWell _ λ e h.
        shadow_report-EndsWell P u s last
          (record l { current_report = started_report l.current_report }) raw e h

  round-EndsWell :
      (run_output : Text) (first last : Bool) (l : Loop) (steps : List PlanStep)
      → Ensures EndsWell (round P H S u s run_output first last l steps)
  unfolding round
  round-EndsWell run_output first last l [] = lift-Ensures EndsWell _ λ e h. cc h
  round-EndsWell run_output first last l (step ∷ steps) =
      rest-Ensures EndsWell (sandbox_of P H S u s run_output first step l.authorization) _
        λ spec. in_mode-EndsWell u.mode last _ spec

  next_round-EndsWell :
      (more : Loop → Run Ending) (e : Ending)
      → ((l : Loop) → IsCoherent l.current_report → Ensures EndsWell (more l))
      → EndsWell e
      → Ensures EndsWell (next_round more e)
  unfolding next_round
  next_round-EndsWell more (again l) f h = f l h
  next_round-EndsWell more (returned r) f h =
      lift-Ensures EndsWell _ λ e p. subst EndsWell (ok-injective _ _ p) h
  next_round-EndsWell more (stopped l) f h =
      lift-Ensures EndsWell _ λ e p. subst EndsWell (ok-injective _ _ p) h

  pub rounds-EndsWell :
      (n : ℕ) (run_output : Text) (first : Bool) (l : Loop)
      → IsCoherent l.current_report
      → Ensures EndsWell (rounds P H S u s run_output first n l)
  unfolding rounds
  rounds-EndsWell zero run_output first l h =
      lift-Ensures EndsWell _ λ e p. subst EndsWell (ok-injective _ _ p) h
  rounds-EndsWell (suc n) run_output first l h =
      then_run-Ensures EndsWell EndsWell _ _
        (round-EndsWell run_output first (n == 0) l l.current_plan.steps)
        λ e k. next_round-EndsWell _ e (λ l' h'. rounds-EndsWell n run_output false l' h') k
