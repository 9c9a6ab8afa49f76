-- ===== src/Agent/Orchestrator/Laws/Counting.antt =====
-- src/r_sandbox/agent/orchestrator.py: the containers that a computation starts.
use r_sandbox.Prelude.{
  ℕ, suc, ◌+◌, ◌≤◌, ◌≡◌, refl, ap, ◌∙◌, subst, Bool, true, false, List, [], ◌∷◌, Text, arith,
  Result, ok, err, inl, inr, if◌then◌else◌,
}
use r_sandbox.Python.{Python}
use r_sandbox.System.{
  made_parent, made_directory, opened_snapshot, closed_snapshot, removed_directory,
  assigned_directory, inventoried, executed, dry_ran, Trace, Run, lift, ask, ◌then_run◌, Mkdir,
  created, exists, refused, Host,
}
use r_sandbox.System.Laws.{then_run-trace, ask-trace}
use r_sandbox.Models.Limits.{ResourceLimits}
use r_sandbox.Models.Value.{Value}
use r_sandbox.Builder.Output.{
  clean_up, inspect_directory, after_mkdir, with_parents, prepare_directory, output_directory,
}
use r_sandbox.Builder.Build.{build}
use r_sandbox.Builder.Laws.Output.{AtMostAssigned, inspect-AtMostAssigned}

-- How many containers were started.
abbrev pub executions : Trace → ℕ
executions [] = 0
executions (executed spec ∷ t) = suc (executions t)
executions (made_parent p ∷ t) = executions t
executions (made_directory p ∷ t) = executions t
executions (opened_snapshot p ∷ t) = executions t
executions (closed_snapshot p ∷ t) = executions t
executions (removed_directory p ∷ t) = executions t
executions (assigned_directory p ∷ t) = executions t
executions (inventoried p ∷ t) = executions t
executions (dry_ran spec ∷ t) = executions t

-- A run from this state starts at most `n` containers.
abbrev pub AtMost {ℓ} : {A : Type ℓ} → ℕ → Run A → Trace → Type 0
AtMost n m t = executions (m t).1 ≤ executions t + n

pub then_run-AtMost {ℓ κ} :
    {A : Type ℓ} {B : Type κ} (n k : ℕ) (m : Run A) (f : A → Run B) (t : Trace)
    → AtMost n m t
    → ((a : A) (t' : Trace) → AtMost k (f a) t')
    → AtMost (n + k) (m then_run f) t
then_run-AtMost n k m f t first rest =
    then_run-trace (λ x. executions x ≤ executions t + (n + k)) m f t (omega (arith, first))
      λ a t' e.
        let here : executions t' ≤ executions t + n =
          subst (λ x. executions x.1 ≤ executions t + n) e first in
        let there = rest a t' in omega (arith, here, there)

pub quiet-AtMost {ℓ κ} :
    {A : Type ℓ} {B : Type κ} (k : ℕ) (m : Run A) (f : A → Run B) (t : Trace)
    → AtMost 0 m t
    → ((a : A) (t' : Trace) → AtMost k (f a) t')
    → AtMost k (m then_run f) t
quiet-AtMost k m f t first rest = let h = then_run-AtMost 0 k m f t first rest in omega (arith, h)

pub pure-AtMost {ℓ κ} :
    {A : Type ℓ} {B : Type κ} (n : ℕ) (m : Run A) (f : A → Run B) (t : Trace)
    → AtMost n m t
    → ((a : A) (t' : Trace) → AtMost 0 (f a) t')
    → AtMost n (m then_run f) t
pure-AtMost n m f t first rest = let h = then_run-AtMost n 0 m f t first rest in omega (arith, h)

pub if-AtMost {ℓ} :
    {A : Type ℓ} (n : ℕ) (b : Bool) (x y : Run A) (t : Trace)
    → AtMost n x t
    → AtMost n y t
    → AtMost n (if b then x else y) t
if-AtMost n true x y t h k = h
if-AtMost n false x y t h k = k

pub ask-AtMost {ℓ κ} :
    {A : Type ℓ} {B : Type κ} (k : ℕ) (g : Trace → Result A) (f : A → Run B) (t : Trace)
    → ((a : A) → AtMost k (f a) t)
    → AtMost k (ask g then_run f) t
ask-AtMost k g f t rest = ask-trace (λ x. executions x ≤ executions t + k) g f t (omega arith) rest

pub asked-AtMost {ℓ κ} :
    {A : Type ℓ} {B : Type κ} (k : ℕ) (g : Trace → Result A) (f : A → Run B) (t : Trace)
    → ((a : A) → g t ≡ ok a → AtMost k (f a) t)
    → AtMost k (ask g then_run f) t
unfolding ask
asked-AtMost k g f t rest =
    then_run-trace (λ x. executions x ≤ executions t + k) (ask g) f t (omega arith)
      λ a t' e.
        subst (λ x. executions (f a x).1 ≤ executions t + k) (ap (λ x. x.1) e)
          (rest a (ap (λ x. x.0) e))

pub lift-AtMost {ℓ} : {A : Type ℓ} (r : Result A) (k : ℕ) (t : Trace) → AtMost k (lift r) t
unfolding lift
lift-AtMost r k t = omega arith

assigned-executions :
    (c : Text) (t t' : Trace) → AtMostAssigned c t t' → executions t' ≡ executions t
assigned-executions c t t' (inl e) = ap executions e
assigned-executions c t t' (inr e) = ap executions e

clean_up-executions :
    (c : Text) (r : Result Text × Trace) → executions (clean_up c r).1 ≡ executions r.1
unfolding clean_up
clean_up-executions c (ok p, t) = refl
clean_up-executions c (err e, t) = refl

with_parents-executions :
    (ps : List Text) (t : Trace) → executions (with_parents ps t) ≡ executions t
unfolding with_parents
with_parents-executions [] t = refl
with_parents-executions (p ∷ ps) t = with_parents-executions ps (made_parent p ∷ t)

module _ (H : Host) (path : Text) where
  after_mkdir-executions :
      (new : Bool) (c : Text) (t : Trace) (m : Mkdir)
      → executions (after_mkdir H path new c t m).1 ≡ executions t
  unfolding after_mkdir
  after_mkdir-executions new c t created =
      clean_up-executions c (inspect_directory H path c true (made_directory c ∷ t))
      ∙ assigned-executions c _ _ (inspect-AtMostAssigned H path c true (made_directory c ∷ t))
  after_mkdir-executions true c t exists = refl
  after_mkdir-executions false c t exists =
      assigned-executions c _ _ (inspect-AtMostAssigned H path c false t)
  after_mkdir-executions new c t refused = refl

  output_directory-AtMost : (new : Bool) (t : Trace) → AtMost 0 (output_directory H path new) t
  unfolding output_directory prepare_directory
  output_directory-AtMost new t = ask-AtMost 0 _ _ t λ c.
      let start = with_parents (H.mkdir t c).0 t in
      omega (
        arith,
        after_mkdir-executions new c start (H.mkdir t c).1,
        with_parents-executions (H.mkdir t c).0 t,
      )

-- Building a sandbox starts nothing.
pub build-AtMost :
    (P : Python) (H : Host) (repository output : Text) (step proposed : Value) (image : Text)
    (limits : ResourceLimits) (fresh : Bool) (t : Trace)
    → AtMost 0 (build P H repository output step proposed image limits fresh) t
unfolding build
build-AtMost P H repository output step proposed image limits fresh t = ask-AtMost 0 _ _ t λ a.
    ask-AtMost 0 _ _ t λ c.
      quiet-AtMost 0 (output_directory H c fresh) _ t (output_directory-AtMost H c fresh t)
        λ r t'. lift-AtMost _ 0 t'
