-- ===== src/Policy/Plan/Sound.antt =====
-- src/r_sandbox/policy/proposal_validation.py: what a successful validation has established.
use r_sandbox.Prelude.{
  le_of_not_lt, ℕ, ◌≤◌, ◌≡◌, refl, ap, ◌∙◌, subst, false, ◌||◌, List, [], ◌∷◌, ◌++◌, map, arith,
  Text, ltb, length, length-map, is_empty, All, ok, ◌>>=◌, invert, invert_guard, ok-injective,
}
use mathlib.Core.List.{append-nil}
use r_sandbox.Python.{Python}
use r_sandbox.Models.Records.{CapabilityRequest, PlanStep}
use r_sandbox.Models.Value.{Value, values, request_value, step_value, plan_value}
use r_sandbox.Policy.Checks.{
  max_plan_steps, max_assumptions, max_capabilities, max_argv_items, max_step_id_length,
  max_purpose_length, max_cwd_length, max_arg_length,
}
use r_sandbox.Policy.Checks.Laws.{IsBounded}
use r_sandbox.Policy.Request.Laws.{as_tuple-eq-ok}
use r_sandbox.Policy.Plan.{
  ValidatedRequest, ValidatedPlan, validated, validate_step, validate_steps,
  validate_execution_plan, Progress, no_progress,
}
use r_sandbox.Policy.Plan.Contract.{Distinct-of_Fresh, IsWellFormedStep, IsWellFormed}
use r_sandbox.Policy.Plan.Requests.{
  require_text-eq-ok, require_texts-eq-ok, as_attempt-eq-ok, requests_of, Checked,
  validate_requests-eq-ok,
}

some_of_not_empty {ℓ} : {A : Type ℓ} (xs : List A) → is_empty xs ≡ false → 1 ≤ length xs
some_of_not_empty [] h = cc
some_of_not_empty (x ∷ xs) h = omega arith

-- One round of the loop over the steps, from the start.
record CheckedStep (P : Python) (v : Value) (s : PlanStep) (rs : List ValidatedRequest)
    : Type 0 where
  copied : v ≡ step_value s
  formed : IsWellFormedStep s
  errors : rs ≡ map (validated P) s.capabilities

step_copied :
    {a b c d e a' b' c' d' e' : Value}
    → a ≡ a'
    → b ≡ b'
    → c ≡ c'
    → d ≡ d'
    → e ≡ e'
    → Value.plan_step a b d c e ≡ Value.plan_step a' b' d' c' e'
step_copied p q r s t = λ i. Value.plan_step (p i) (q i) (s i) (r i) (t i)

plan_copied :
    {a b c d e a' b' c' d' e' : Value}
    → a ≡ a'
    → b ≡ b'
    → c ≡ c'
    → d ≡ d'
    → e ≡ e'
    → Value.execution_plan a b c d e ≡ Value.execution_plan a' b' c' d' e'
plan_copied p q r s t = λ i. Value.execution_plan (p i) (q i) (r i) (s i) (t i)

step_of_parts :
    (P : Python) {sid pur av cw cs : Value} (sid' pur' cw' : Text) (av' : List Text)
    (args caps : List Value) (rs : List ValidatedRequest)
    → (sid ≡ Value.text sid')
      × (pur ≡ Value.text pur')
      × (cw ≡ Value.text cw')
      × (av ≡ Value.tuple (values args))
      × (args ≡ map Value.text av')
      × (cs ≡ Value.tuple (values caps))
    → IsBounded max_step_id_length sid'
      × IsBounded max_purpose_length pur'
      × IsBounded max_cwd_length cw'
      × All (IsBounded max_arg_length) av'
    → Checked P [] caps rs
    → (is_empty args || ltb max_argv_items (length args)) ≡ false
    → ltb max_capabilities (length caps) ≡ false
    → CheckedStep P
        (Value.plan_step sid pur av cw cs)
        (record {
          step_id = sid';
          purpose = pur';
          argv = av';
          cwd = cw';
          capabilities = requests_of rs;
        })
        rs
step_of_parts P sid' pur' cw' av' args caps rs (e1, e2, e3, e4, e5, e6) (b1, b2, b3, b5) c g1 g2 =
    let args_size : length args ≡ length av' = ap length e5 ∙ length-map Value.text av' in
    let caps_size : length caps ≡ length (requests_of rs) =
      ap length c.copied ∙ length-map request_value (requests_of rs) in
    let fits : length args ≤ max_argv_items = ground arith in
    let few : length caps ≤ max_capabilities = ground arith in
    record {
      copied =
          step_copied e1 e2 e3 (e4 ∙ ap (λ xs. Value.tuple (values xs)) e5)
            (e6 ∙ ap (λ xs. Value.tuple (values xs)) c.copied);
      formed = record {
        step_id = b1;
        purpose = b2;
        cwd = b3;
        some_argv = omega (arith, some_of_not_empty {0} args (ground arith), args_size);
        few_argv = omega (arith, fits, args_size);
        argv = b5;
        few_capabilities = omega (arith, few, caps_size);
        capabilities = c.detached;
        distinct = Distinct-of_Fresh _ c.fresh;
      };
      errors = c.errors;
    }

validate_step-eq-ok :
    (P : Python) (i : ℕ) (v : Value) (after : Progress) (s : PlanStep) (rs : List ValidatedRequest)
    → validate_step P i v no_progress ≡ ok (after, s, rs)
    → CheckedStep P v s rs
unfolding validate_step
validate_step-eq-ok P i (Value.plan_step sid pur av cw cs) after s rs h = invert h λ sid' p1 h1.
    invert_guard _ _ h1 λ _ h2. invert h2 λ pur' p2 h3. invert h3 λ cw' p3 h4.
      invert h4 λ args p4 h5. invert_guard _ _ h5 λ g1 h6. invert h6 λ av' p5 h7.
        invert h7 λ caps p6 h8. invert_guard _ _ h8 λ g2 h9. invert_guard _ _ h9 λ g3 h10.
          invert h10 λ (seen, rs') p7 h11.
            let (e1, b1) = require_text-eq-ok sid _ _ sid' p1 in
            let (e2, b2) = require_text-eq-ok pur _ _ pur' p2 in
            let (e3, b3) = require_text-eq-ok cw _ _ cw' p3 in
            let (e5, b5) = require_texts-eq-ok _ _ 0 args av' p5 in
            let c = validate_requests-eq-ok P _ 0 [] seen caps rs' p7 in
            subst (λ t. CheckedStep P (Value.plan_step sid pur av cw cs) t.1 t.2)
              (ok-injective _ _ h11)
              (step_of_parts P sid' pur' cw' av' args caps rs'
                (e1, e2, e3, as_tuple-eq-ok av _ p4, e5, as_tuple-eq-ok cs _ p6) (b1, b2, b3, b5) c
                (g1) (g2))
validate_step-eq-ok P i _ after s rs h = cc

-- The capabilities of all steps, in order.
abbrev pub capabilities_of : List PlanStep → List CapabilityRequest
capabilities_of [] = []
capabilities_of (s ∷ rest) = s.capabilities ++ capabilities_of rest

record CheckedSteps (P : Python) (vs : List Value) (ss : List PlanStep) (rs : List ValidatedRequest)
    : Type 0 where
  copied : vs ≡ map step_value ss
  few : length ss ≤ max_plan_steps
  formed : All IsWellFormedStep ss
  errors : rs ≡ map (validated P) (capabilities_of ss)

validate_steps-eq-ok :
    (P : Python) (vs : List Value) (ss : List PlanStep) (rs : List ValidatedRequest)
    → length vs ≤ max_plan_steps
    → validate_steps P 0 vs no_progress ≡ ok (ss, rs)
    → CheckedSteps P vs ss rs
unfolding validate_steps ◌>>=◌
validate_steps-eq-ok P [] ss rs few h =
    subst (λ t. CheckedSteps P [] t.0 t.1) (ok-injective _ _ h)
      (record { copied = refl; few = omega arith; formed = tt; errors = refl })
validate_steps-eq-ok P (v ∷ []) ss rs few h = invert h λ (after, s, rs1) p1 h1.
    let c = validate_step-eq-ok P 0 v after s rs1 p1 in
    subst (λ t. CheckedSteps P (v ∷ []) t.0 t.1) (ok-injective _ _ h1)
      (record {
        copied = ap (λ x. x ∷ []) c.copied;
        few = omega arith;
        formed = (c.formed, tt);
        errors = simp append-nil c.errors;
      })
validate_steps-eq-ok P (v ∷ w ∷ vs) ss rs few h = absurd (omega arith)

-- What a validated plan is to the object it was read from.
pub record IsSnapshot (P : Python) (v : Value) (r : ValidatedPlan) : Type 0 where
  pub copied : v ≡ plan_value r.plan
  pub formed : IsWellFormed r.plan
  pub requests : r.requests ≡ map (validated P) (capabilities_of r.plan.steps)

-- A plan that `validate_execution_plan` accepts is the untrusted object itself, field for field, it
-- meets the contract, and the returned requests are its capabilities in order, each with its value
-- error.
pub validate-IsSnapshot :
    (P : Python) (v : Value) (r : ValidatedPlan)
    → validate_execution_plan P v ≡ ok r
    → IsSnapshot P v r
unfolding validate_execution_plan
validate-IsSnapshot P (Value.execution_plan g s st as_ n) r h = invert h λ g' p1 h1.
    invert h1 λ s' p2 h2. invert h2 λ steps p3 h3. invert_guard _ _ h3 λ g1 h4.
      invert h4 λ texts p4 h5. invert_guard _ _ h5 λ g2 h6. invert h6 λ as' p5 h7.
        invert h7 λ n' p6 h8. invert h8 λ (ss, rs) p7 h9.
          let (e1, b1) = require_text-eq-ok g _ _ g' p1 in
          let (e2, b2) = require_text-eq-ok s _ _ s' p2 in
          let (e5, b5) = require_texts-eq-ok _ _ 0 texts as' p5 in
          let (e6, low, high) = as_attempt-eq-ok n n' p6 in
          let few_steps = le_of_not_lt max_plan_steps (length steps) (g1) in
          let few = le_of_not_lt max_assumptions (length texts) (g2) in
          let size : length texts ≡ length as' = ap length e5 ∙ length-map Value.text as' in
          let c = validate_steps-eq-ok P steps ss rs few_steps p7 in
          subst (IsSnapshot P (Value.execution_plan g s st as_ n)) (ok-injective _ _ h9) (record {
            copied =
                plan_copied e1 e2
                  (as_tuple-eq-ok st _ p3 ∙ ap (λ xs. Value.tuple (values xs)) c.copied)
                  (as_tuple-eq-ok as_ _ p4 ∙ ap (λ xs. Value.tuple (values xs)) e5) e6;
            formed = record {
              goal = b1;
              summary = b2;
              few_steps = c.few;
              steps = c.formed;
              few_assumptions = subst (λ n. n ≤ max_assumptions) size few;
              assumptions = b5;
              positive_attempt = low;
              bounded_attempt = high;
            };
            requests = c.errors;
          })
validate-IsSnapshot P _ r h = cc
