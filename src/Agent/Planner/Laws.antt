-- ===== src/Agent/Planner/Laws.antt =====
-- src/r_sandbox/agent/planner.py: what a planned step runs.
use r_sandbox.Prelude.{
  ◌≡◌, refl, ap, sym, subst, ◌⊎◌, inl, inr, true, false, ◌||◌, none, some, List, [], ◌∷◌, arith,
  Text, lit, is_empty, All, one_of, has_infix, has_char, replace_char, Result, ok, invert,
  invert_guard, ok-injective, Bool-cases, Option-cases, >>-eq-ok, raise_if-eq-ok,
}
use r_sandbox.Prelude.Int.{ℤ}
use r_sandbox.Prelude.Paths.{posix_path, has_part}
use r_sandbox.Python.{Python}
use r_sandbox.Models.Records.{Entrypoint, RepositoryProfile, CapabilityRequest, ExecutionPlan}
use r_sandbox.Agent.Planner.{
  executables, control_tokens, audit_flags, name_of, validate_argument, validate_arguments,
  validate_argv, best, exceeds, select_among, select_entrypoint, chosen, step_of, plan_with,
  plan_of, empty_plan, plan,
}

-- One line of text that no shell, no flag and no path turns against the sandbox.
pub record IsPlainArgument (t : Text) : Type 0 where
  pub some_text : is_empty t ≡ false
  pub one_line : has_char 10 t || has_char 13 t ≡ false
  pub no_control : one_of t control_tokens ≡ false
  pub no_substitution : has_infix (lit "$(") t ≡ false
  pub audited : one_of t audit_flags ≡ false
  pub no_parent : has_part (lit "..") (posix_path (replace_char 92 b'/' t)) ≡ false

abbrev pub IsArgvOnly : Python → List Text → Type 0
IsArgvOnly P [] = ⊥
IsArgvOnly P (argv0 ∷ rest) =
    (one_of (P.lower (name_of (replace_char 92 b'/' argv0))) executables ≡ true)
    × All IsPlainArgument (argv0 ∷ rest)

validate_argument-IsPlainArgument :
    (t : Text) {u : Unit {0}} → validate_argument t ≡ ok u → IsPlainArgument t
unfolding validate_argument
validate_argument-IsPlainArgument t h = invert_guard _ _ h λ g1 h1. invert_guard _ _ h1 λ g2 h2.
    invert_guard _ _ h2 λ g3 h3.
      let g4 = raise_if-eq-ok _ _ h3 in
      record {
        some_text = ground arith;
        one_line = ground arith;
        no_control = ground arith;
        no_substitution = ground arith;
        audited = g3;
        no_parent = g4;
      }

validate_arguments-IsPlainArgument :
    (ts : List Text) {u : Unit {0}} → validate_arguments ts ≡ ok u → All IsPlainArgument ts
unfolding validate_arguments
validate_arguments-IsPlainArgument [] h = tt
validate_arguments-IsPlainArgument (t ∷ ts) h =
    let (p, q) = >>-eq-ok _ _ h in
    (validate_argument-IsPlainArgument t p, validate_arguments-IsPlainArgument ts q)

validate_argv-eq-ok :
    (P : Python) (raw argv : List Text)
    → validate_argv P raw ≡ ok argv
    → (argv ≡ raw) × IsArgvOnly P raw
unfolding validate_argv
validate_argv-eq-ok P [] argv h = cc
validate_argv-eq-ok P (argv0 ∷ rest) argv h = invert_guard _ _ h λ g h1.
    let (p, q) = >>-eq-ok _ _ h1 in
    (sym (ok-injective _ _ q), (ground arith, validate_arguments-IsPlainArgument (argv0 ∷ rest) p))

abbrev pub IsAmong : Entrypoint → List Entrypoint → Type 0
IsAmong e [] = ⊥
IsAmong e (x ∷ xs) = (e ≡ x) ⊎ IsAmong e xs

best_nil : (P : Python) (goal : Text) (e : Entrypoint) → best P goal e [] ≡ e
unfolding best
best_nil P goal e = refl

best_more :
    (P : Python) (goal : Text) (e c : Entrypoint) (cs : List Entrypoint)
    → exceeds P goal c e ≡ true
    → best P goal e (c ∷ cs) ≡ best P goal c cs
unfolding best
best_more P goal e c cs h = rw h

best_less :
    (P : Python) (goal : Text) (e c : Entrypoint) (cs : List Entrypoint)
    → exceeds P goal c e ≡ false
    → best P goal e (c ∷ cs) ≡ best P goal e cs
unfolding best
best_less P goal e c cs h = rw h

skip-IsAmong :
    (x e c : Entrypoint) (cs : List Entrypoint) → IsAmong x (e ∷ cs) → IsAmong x (e ∷ c ∷ cs)
skip-IsAmong x e c cs (inl p) = inl p
skip-IsAmong x e c cs (inr q) = inr (inr q)

best-IsAmong :
    (P : Python) (goal : Text) (e : Entrypoint) (es : List Entrypoint)
    → IsAmong (best P goal e es) (e ∷ es)
best-IsAmong P goal e [] = inl (best_nil P goal e)
best-IsAmong P goal e (c ∷ cs) = elim (Bool-cases (exceeds P goal c e)) [
  | inl more ↦
      subst (λ x. IsAmong x (e ∷ c ∷ cs)) (sym (best_more P goal e c cs more))
        (inr (best-IsAmong P goal c cs))
  | inr less ↦
      subst (λ x. IsAmong x (e ∷ c ∷ cs)) (sym (best_less P goal e c cs less))
        (skip-IsAmong (best P goal e cs) e c cs (best-IsAmong P goal e cs))
]

select_among-IsAmong :
    (P : Python) (goal : Text) (es : List Entrypoint) (e : Entrypoint)
    → select_among P goal es ≡ some e
    → IsAmong e es
unfolding select_among
select_among-IsAmong P goal [] e h = cc
select_among-IsAmong P goal (x ∷ xs) e h =
    subst (λ y. IsAmong y (x ∷ xs)) (cc h) (best-IsAmong P goal x xs)

select_among-none :
    (P : Python) (goal : Text) (es : List Entrypoint) → select_among P goal es ≡ none → es ≡ []
unfolding select_among
select_among-none P goal [] h = refl
select_among-none P goal (x ∷ xs) h = cc

-- What a plan for a profile consists of.
pub record IsPlanned (P : Python) (profile : RepositoryProfile) (cs : List CapabilityRequest)
    (attempt : ℤ) (p : ExecutionPlan) (e : Entrypoint) : Type 0 where
  pub among : IsAmong e profile.entrypoints
  pub steps : p.steps ≡ step_of profile cs attempt e e.argv ∷ []
  pub argv_only : IsArgvOnly P e.argv

plan_with-IsPlanned :
    (P : Python) (profile : RepositoryProfile) (cs : List CapabilityRequest) (attempt : ℤ)
    (e : Entrypoint) (p : ExecutionPlan)
    → IsAmong e profile.entrypoints
    → plan_with P profile cs attempt (some e) ≡ ok p
    → IsPlanned P profile cs attempt p e
unfolding plan_with plan_of
plan_with-IsPlanned P profile cs attempt e p among h = invert h λ argv g h1.
    let (same_argv, argv_only) = validate_argv-eq-ok P e.argv argv g in
    subst (λ x. IsPlanned P profile cs attempt x e) (ok-injective _ _ h1)
      (record {
        among = among;
        steps = ap (λ x. step_of profile cs attempt e x ∷ []) same_argv;
        argv_only = argv_only;
      })

plan_with-none :
    (P : Python) (profile : RepositoryProfile) (cs : List CapabilityRequest) (attempt : ℤ)
    (p : ExecutionPlan)
    → plan_with P profile cs attempt none ≡ ok p
    → p.steps ≡ []
unfolding plan_with empty_plan
plan_with-none P profile cs attempt p h = ap (λ x. x.steps) (sym (ok-injective _ _ h))

empty_plan_steps :
    (profile : RepositoryProfile) (attempt : ℤ) (p : ExecutionPlan)
    → Result.ok (empty_plan profile attempt) ≡ ok p
    → p.steps ≡ []
unfolding empty_plan
empty_plan_steps profile attempt p h = ap (λ x. x.steps) (sym (ok-injective _ _ h))

nil_of_empty : (es : List Entrypoint) → is_empty es ≡ true → es ≡ []
nil_of_empty [] h = refl
nil_of_empty (e ∷ es) h = cc

-- A plan made with the selected entrypoint executes nothing when the repository has no entrypoint,
-- and else has one step, which runs the argv of one of the repository's entrypoints with the
-- given capabilities and no others; that argv starts a Python interpreter, and none of its items
-- is empty or multiline, shell control, a flag against the audit hook, or a path with a parent
-- component.
pub plan-IsPlanned :
    (P : Python) (profile : RepositoryProfile) (cs : List CapabilityRequest) (attempt : ℤ)
    (p : ExecutionPlan)
    → plan P profile cs attempt (select_entrypoint P profile) ≡ ok p
    → ((profile.entrypoints ≡ []) × (p.steps ≡ []))
      ⊎ ((e : Entrypoint) × IsPlanned P profile cs attempt p e)
unfolding plan select_entrypoint chosen
plan-IsPlanned P profile cs attempt p h = elim (Bool-cases (is_empty profile.entrypoints)) [
  | inl nothing ↦ inl (
    nil_of_empty profile.entrypoints nothing,
    empty_plan_steps profile attempt p (rw nothing at h),
  )
  | inr something ↦
      elim (Option-cases (select_among P (P.lower profile.goal) profile.entrypoints)) [
        | inl unselected ↦ inl (
          select_among-none P _ profile.entrypoints unselected,
          plan_with-none P profile cs attempt p (rw (something, unselected) at h),
        )
        | inr (e, selected) ↦ inr (
          e,
          plan_with-IsPlanned P profile cs attempt e p
              (select_among-IsAmong P _ profile.entrypoints e selected)
              (rw (something, selected) at h),
        )
      ]
]
