-- ===== src/System/Laws.antt =====
-- Runs with effects: what a run that ended well has passed through.
use r_sandbox.Prelude.{◌≡◌, refl, ap, subst, Result, ok, err}
use r_sandbox.System.{Trace, Run, ask, continue, ◌then_run◌}

-- The two halves of a run, as variables of the rest of a proof.
pub invert_run {ℓ κ μ} :
    {A : Type ℓ} {B : Type κ} (m : Run A) (f : A → Run B) (t : Trace) {b : B} {t'' : Trace}
    {C : Type μ}
    → (m then_run f) t ≡ (ok b, t'')
    → ((a : A) (t' : Trace) → m t ≡ (ok a, t') → f a t' ≡ (ok b, t'') → C)
    → C
unfolding ◌then_run◌ continue
invert_run {A} {B} m f t {b} {t''} {C} h k = go (m t) refl h
  where
    go : (r : Result A × Trace) → m t ≡ r → continue f r ≡ (ok b, t'') → C
    go (ok a, t') e h' = k a t' e h'
    go (err e', t') e h' = absurd (cc h')

-- A predicate of what has been done, step by step.
pub then_run-trace {ℓ κ μ} :
    {A : Type ℓ} {B : Type κ} (Q : Trace → Type μ) (m : Run A) (f : A → Run B) (t : Trace)
    → Q (m t).1
    → ((a : A) (t' : Trace) → m t ≡ (ok a, t') → Q (f a t').1)
    → Q ((m then_run f) t).1
unfolding ◌then_run◌ continue
then_run-trace {A} {B} Q m f t q k = go (m t) refl q
  where
    go : (r : Result A × Trace) → m t ≡ r → Q r.1 → Q (continue f r).1
    go (ok a, t') e q' = k a t' e
    go (err e', t') e q' = q'

pub ask-trace {ℓ κ μ} :
    {A : Type ℓ} {B : Type κ} (Q : Trace → Type μ) (g : Trace → Result A) (f : A → Run B)
    (t : Trace)
    → Q t
    → ((a : A) → Q (f a t).1)
    → Q ((ask g then_run f) t).1
unfolding ask
ask-trace {A} {B} Q g f t q k =
    then_run-trace Q (ask g) f t q (λ a t' e. subst (λ x. Q (f a x).1) (ap (λ x. x.1) e) (k a))

-- A question that was answered well, and the rest of the run at the same state.
pub invert_ask {ℓ κ μ} :
    {A : Type ℓ} {B : Type κ} (g : Trace → Result A) (f : A → Run B) (t : Trace) {b : B}
    {t'' : Trace} {C : Type μ}
    → (ask g then_run f) t ≡ (ok b, t'')
    → ((a : A) → g t ≡ ok a → f a t ≡ (ok b, t'') → C)
    → C
unfolding ◌then_run◌ ask continue
invert_ask {A} {B} g f t {b} {t''} {C} h k = go (g t) refl h
  where
    go : (r : Result A) → g t ≡ r → continue f (r, t) ≡ (ok b, t'') → C
    go (ok a) e h' = k a e h'
    go (err x) e h' = absurd (cc h')
