-- ===== src/Policy/Plan/Contract.antt =====
-- src/r_sandbox/policy/proposal_validation.py: the contract of a validated plan, described
-- without the validator: the bounds of its texts and lists, and the ids that may not repeat.
use r_sandbox.Prelude.{
  ◌≤◌, ◌≡◌, refl, ◌≢◌, false, List, [], ◌∷◌, map, arith, Text, length, All, All-map, All-each,
  Bool-cases, inl, inr, same, same_iff, one_of, sym,
}
use r_sandbox.Prelude.Int.{pos, ◌≤ℤ◌}
use r_sandbox.Models.Records.{CapabilityRequest, PlanStep, ExecutionPlan}
use r_sandbox.Policy.Checks.{
  max_plan_steps, max_capabilities, max_assumptions, max_argv_items, max_goal_length,
  max_summary_length, max_step_id_length, max_purpose_length, max_cwd_length, max_arg_length,
  max_assumption_length, max_attempt,
}
use r_sandbox.Policy.Checks.Laws.{IsBounded}
use r_sandbox.Policy.Request.Laws.{IsDetached}

-- No text occurs twice.
abbrev pub Distinct : List Text → Type 0
Distinct [] = Unit
Distinct (t ∷ ts) = All (λ u. t ≢ u) ts × Distinct ts

abbrev pub ids : List CapabilityRequest → List Text
ids = map (λ r. r.request_id)

pub record IsWellFormedStep (s : PlanStep) : Type 0 where
  pub step_id : IsBounded max_step_id_length s.step_id
  pub purpose : IsBounded max_purpose_length s.purpose
  pub cwd : IsBounded max_cwd_length s.cwd
  pub some_argv : 1 ≤ length s.argv
  pub few_argv : length s.argv ≤ max_argv_items
  pub argv : All (IsBounded max_arg_length) s.argv
  pub few_capabilities : length s.capabilities ≤ max_capabilities
  pub capabilities : All IsDetached s.capabilities
  pub distinct : Distinct (ids s.capabilities)

pub record IsWellFormed (p : ExecutionPlan) : Type 0 where
  pub goal : IsBounded max_goal_length p.goal
  pub summary : IsBounded max_summary_length p.summary
  pub few_steps : length p.steps ≤ max_plan_steps
  pub steps : All IsWellFormedStep p.steps
  pub few_assumptions : length p.assumptions ≤ max_assumptions
  pub assumptions : All (IsBounded max_assumption_length) p.assumptions
  pub positive_attempt : pos 1 ≤ℤ p.attempt
  pub bounded_attempt : p.attempt ≤ℤ pos max_attempt

-- The loop's own test of a repetition, against the ids seen so far.
abbrev pub Fresh : List Text → List Text → Type 0
Fresh seen [] = Unit
Fresh seen (t ∷ ts) = (one_of t seen ≡ false) × Fresh (t ∷ seen) ts

Apart : List Text → Text → Type 0
Apart seen t = one_of t seen ≡ false

ne_of_not_same : (t u : Text) → same u t ≡ false → t ≢ u
ne_of_not_same t u h e = ground (arith, h, (same_iff u t).1 (sym e))

not_same_of_ne : (t u : Text) → t ≢ u → same u t ≡ false
not_same_of_ne t u h = elim (Bool-cases (same u t)) [
  | inl e ↦ absurd (h (sym ((same_iff u t).0 e)))
  | inr e ↦ e
]

Apart-cons : (t u : Text) (seen : List Text) → Apart (t ∷ seen) u → (t ≢ u) × Apart seen u
unfolding Apart one_of
Apart-cons t u seen h = (ne_of_not_same t u (ground arith), ground arith)

cons-Apart : (t u : Text) (seen : List Text) → t ≢ u → Apart seen u → Apart (t ∷ seen) u
unfolding Apart one_of
cons-Apart t u seen n h = rw (not_same_of_ne t u n) h

Fresh-parts : (seen ts : List Text) → Fresh seen ts → All (Apart seen) ts × Distinct ts
unfolding Apart
Fresh-parts seen [] h = (tt, tt)
Fresh-parts seen (t ∷ ts) (h, k) =
    let (apart, distinct) = Fresh-parts (t ∷ seen) ts k in
    (
      (h, All-map (Apart (t ∷ seen)) (Apart seen) (λ u a. (Apart-cons t u seen a).1) ts apart),
      (
        All-map (Apart (t ∷ seen)) (λ u. t ≢ u) (λ u a. (Apart-cons t u seen a).0) ts apart,
        distinct,
      ),
    )

extend-Apart :
    (t : Text) (seen ts : List Text)
    → All (λ u. t ≢ u) ts
    → All (Apart seen) ts
    → All (Apart (t ∷ seen)) ts
extend-Apart t seen [] n h = tt
extend-Apart t seen (u ∷ ts) n h = (cons-Apart t u seen n.0 h.0, extend-Apart t seen ts n.1 h.1)

Fresh-of_parts : (seen ts : List Text) → All (Apart seen) ts → Distinct ts → Fresh seen ts
unfolding Apart
Fresh-of_parts seen [] h d = tt
Fresh-of_parts seen (t ∷ ts) h d =
    (h.0, Fresh-of_parts (t ∷ seen) ts (extend-Apart t seen ts d.0 h.1) d.1)

pub Distinct-of_Fresh : (ts : List Text) → Fresh [] ts → Distinct ts
Distinct-of_Fresh ts h = (Fresh-parts [] ts h).1

pub Fresh-of_Distinct : (ts : List Text) → Distinct ts → Fresh [] ts
unfolding Apart one_of
Fresh-of_Distinct ts d = Fresh-of_parts [] ts (All-each (Apart []) (λ t. refl) ts) d
