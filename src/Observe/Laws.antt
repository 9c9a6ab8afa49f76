-- ===== src/Observe/Laws.antt =====
-- src/r_sandbox/tools/runtime_observer/observer.py and src/r_sandbox/agent/reflection.py: laws of
-- `_classification`, `inspect` and `replan`.
use r_sandbox.Prelude.{
  ℕ, ◌≡◌, refl, sym, subst, ◌≢◌, ◌⊎◌, inl, inr, true, not, ◌||◌, List, [], ◌∷◌, arith, Text, lit,
  any, same, one_of, ok, invert, ok-injective, Bool-cases,
}
use r_sandbox.Python.{Python}
use r_sandbox.Models.Records.{
  CapabilityRequest, PlanStep, ExecutionPlan, ExecutionResult, Reflection,
}
use r_sandbox.Policy.Identity.{capability_request_id}
use r_sandbox.Observe.Classes.{FailureClass, command_or_config, success, is_start, classify}
use r_sandbox.Observe.Inspect.{reflect_on, inspect_canonical}
use r_sandbox.Observe.Replan.{
  other_executable, names_executable, switch_request, switch_requests, switch_step, switch_first,
  replan, retry_classes,
}

started-ne-command :
    (P : Python) (r : ExecutionResult)
    → any is_start r.events ≡ true
    → classify P r ≢ command_or_config
unfolding classify
started-ne-command P r h e = ground arith

replan_other :
    (P : Python) (plan : ExecutionPlan) (c : FailureClass) (context detail : Text)
    (repository digest auth : Text)
    → c ≢ command_or_config
    → replan P plan (reflect_on c context detail) repository digest auth ≡ ok plan
unfolding replan reflect_on one_of same lit
replan_other P plan success context detail repository digest auth h = refl
replan_other P plan command_or_config context detail repository digest auth h = absurd (h refl)
replan_other P plan _ context detail repository digest auth h = refl

-- Once target code has started, nothing that it reports, prints or returns has its plan changed:
-- the reflection on such a run leaves every plan as it is.
pub started-replan :
    (P : Python) (limit : ℕ) (r : ExecutionResult) (plan : ExecutionPlan)
    (repository digest auth : Text)
    → any is_start r.events ≡ true
    → replan P plan (inspect_canonical P limit r) repository digest auth ≡ ok plan
unfolding inspect_canonical
started-replan P limit r plan repository digest auth h =
    replan_other P plan (classify P r) _ _ repository digest auth (started-ne-command P r h)

-- A request of the new plan: the old one, or the interpreter's grant moved to the other
-- interpreter, under the canonical id of the moved request.
abbrev pub KeepsAuthority :
    Python
    → (repository goal digest auth argv0 : Text) → CapabilityRequest
    → CapabilityRequest
    → Type 0
KeepsAuthority P repository goal digest auth argv0 r s =
    (s ≡ r)
    ⊎ ((names_executable argv0 r ≡ true)
        × (s.target ≡ other_executable argv0)
        × (s.category ≡ r.category)
        × (s.action ≡ r.action)
        × (s.risk ≡ r.risk)
        × (s.confidence ≡ r.confidence)
        × (s.evidence ≡ r.evidence)
        × (capability_request_id P repository goal s digest auth ≡ ok s.request_id))

abbrev pub AllKeep :
    (CapabilityRequest → CapabilityRequest → Type 0)
    → List CapabilityRequest
    → List CapabilityRequest
    → Type 0
AllKeep R [] [] = Unit
AllKeep R (r ∷ rs) (s ∷ ss) = R r s × AllKeep R rs ss
AllKeep R _ _ = ⊥

module _ (P : Python) (repository goal digest auth argv0 : Text) where
  switch_request-keeps :
      (r s : CapabilityRequest)
      → switch_request P repository goal digest auth argv0 r ≡ ok s
      → KeepsAuthority P repository goal digest auth argv0 r s
  unfolding switch_request capability_request_id
  switch_request-keeps r s h = elim (Bool-cases (names_executable argv0 r)) [
    | inl named ↦ invert (rw named at h) λ i p h1.
        subst (KeepsAuthority P repository goal digest auth argv0 r) (ok-injective _ _ h1)
          (inr (named, refl, refl, refl, refl, refl, refl, p))
    | inr kept ↦ inl (sym (ok-injective _ _ (rw kept at h)))
  ]

  switch_requests-keeps :
      (rs ss : List CapabilityRequest)
      → switch_requests P repository goal digest auth argv0 rs ≡ ok ss
      → AllKeep (KeepsAuthority P repository goal digest auth argv0) rs ss
  unfolding switch_requests
  switch_requests-keeps [] ss h =
      subst (AllKeep (KeepsAuthority P repository goal digest auth argv0) []) (ok-injective _ _ h)
        tt
  switch_requests-keeps (r ∷ rs) ss h = invert h λ s p h1. invert h1 λ rest q h2.
      subst (AllKeep (KeepsAuthority P repository goal digest auth argv0) (r ∷ rs))
        (ok-injective _ _ h2) (switch_request-keeps r s p, switch_requests-keeps rs rest q)

-- The plan `new` is `old` with its first step run by the other interpreter.
pub record IsSwitch (P : Python) (repository digest auth : Text) (old new : ExecutionPlan)
    : Type 0 where
  pub before : PlanStep
  pub others : List PlanStep
  pub argv0 : Text
  pub arguments : List Text
  pub after : PlanStep
  pub first : old.steps ≡ before ∷ others
  pub old_argv : before.argv ≡ argv0 ∷ arguments
  pub only : new.steps ≡ after ∷ []
  pub new_argv : after.argv ≡ other_executable argv0 ∷ arguments
  pub same_cwd : after.cwd ≡ before.cwd
  pub same_goal : new.goal ≡ old.goal
  pub authority :
      AllKeep
        (KeepsAuthority P repository old.goal digest auth argv0)
        before.capabilities
        after.capabilities

switch_step-IsSwitch :
    (P : Python) (repository digest auth : Text) (old new : ExecutionPlan) (step : PlanStep)
    (others : List PlanStep) (argv : List Text)
    → old.steps ≡ step ∷ others
    → step.argv ≡ argv
    → switch_step P repository digest auth old step argv ≡ ok new
    → IsSwitch P repository digest auth old new
unfolding switch_step
switch_step-IsSwitch P repository digest auth old new step others [] hs ha h = cc
switch_step-IsSwitch P repository digest auth old new step others (argv0 ∷ rest) hs ha h =
    invert h λ capabilities p h1.
      subst (IsSwitch P repository digest auth old) (ok-injective _ _ h1) (record {
        before = step;
        others = others;
        argv0 = argv0;
        arguments = rest;
        after = _;
        first = hs;
        old_argv = ha;
        only = refl;
        new_argv = refl;
        same_cwd = refl;
        same_goal = refl;
        authority =
            switch_requests-keeps P repository old.goal digest auth argv0 step.capabilities
              capabilities p;
      })

switch_first-IsSwitch :
    (P : Python) (repository digest auth : Text) (old new : ExecutionPlan) (steps : List PlanStep)
    → old.steps ≡ steps
    → switch_first P repository digest auth old steps ≡ ok new
    → (new ≡ old) ⊎ IsSwitch P repository digest auth old new
unfolding switch_first
switch_first-IsSwitch P repository digest auth old new [] hs h = inl (sym (ok-injective _ _ h))
switch_first-IsSwitch P repository digest auth old new (step ∷ others) hs h =
    inr (switch_step-IsSwitch P repository digest auth old new step others step.argv hs refl h)

-- A replanned run asks for no new authority: either the plan is unchanged, or its first step runs
-- the other Python interpreter with the same arguments, the grant of the interpreter moves with it
-- under its new canonical id, and every other request stays as it was.
pub replan-IsSwitch :
    (P : Python) (old new : ExecutionPlan) (r : Reflection) (repository digest auth : Text)
    → replan P old r repository digest auth ≡ ok new
    → (new ≡ old) ⊎ IsSwitch P repository digest auth old new
unfolding replan
replan-IsSwitch P old new r repository digest auth h =
    elim (Bool-cases (not r.should_retry || not (one_of r.classification retry_classes))) [
      | inl stop ↦ inl (sym (ok-injective _ _ (rw stop at h)))
      | inr go ↦ switch_first-IsSwitch P repository digest auth old new old.steps refl (rw go at h)
    ]
