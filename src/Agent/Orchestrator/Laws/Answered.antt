-- ===== src/Agent/Orchestrator/Laws/Answered.antt =====
-- src/r_sandbox/agent/orchestrator.py: what the policy answers for.
use r_sandbox.Prelude.{
  ◌≡◌, refl, sym, ap, subst, Bool, true, false, List, [], ◌∷◌, Text, All, if◌then◌else◌, Result, ok,
  err, inl, inr,
}
use r_sandbox.Python.{Python}
use r_sandbox.System.{
  Effect, made_parent, made_directory, opened_snapshot, closed_snapshot, removed_directory,
  assigned_directory, inventoried, executed, dry_ran, Trace, Run, lift, ◌then_run◌, Mkdir, created,
  exists, refused, Host,
}
use r_sandbox.System.Laws.{then_run-trace, ask-trace, invert_run}
use r_sandbox.Models.Records.{ExecutionPlan, PlanStep, Authorization}
use r_sandbox.Models.Limits.{ResourceLimits}
use r_sandbox.Models.Sandbox.{SandboxSpec, sandbox_spec-eq-ok}
use r_sandbox.Models.Value.{Value, plan_value, step_value, authorization_value}
use r_sandbox.Policy.Config.{PolicyConfig}
use r_sandbox.Policy.Engine as Engine
use r_sandbox.Policy.Plan.Own.{canonical_authorization-own}
use r_sandbox.Builder.Output.{
  clean_up, inspect_directory, after_mkdir, with_parents, prepare_directory, output_directory,
}
use r_sandbox.Builder.Laws.Output.{AtMostAssigned, inspect-AtMostAssigned}
use r_sandbox.Builder.Build.{build}
use r_sandbox.Builder.Laws.Authority.{IsTarget, is_network_request, is_device_request}
use r_sandbox.Builder.Laws.Contract.{AreCovered, IsConfined, build-IsConfined}
use r_sandbox.Agent.Orchestrator.Services.{Services, Order}
use r_sandbox.Agent.Orchestrator.Survey.{Surveyed}
use r_sandbox.Agent.Orchestrator.Round.{default_limits, sandbox_of}
use r_sandbox.Agent.Orchestrator.Run.{authorized}

-- A sandbox that the policy stands behind: its authority comes from the decisions of one
-- authorization of the policy under this configuration.
pub record IsMediated (P : Python) (u : Order) (config : PolicyConfig) (spec : SandboxSpec)
    : Type 0 where
  pub plan : ExecutionPlan
  pub authorization : Authorization
  pub authorized : Engine.authorize P (plan_value plan) config ≡ ok authorization
  pub network : All (IsTarget authorization.decisions is_network_request) spec.network_targets
  pub devices : All (IsTarget authorization.decisions is_device_request) spec.devices
  pub environment : spec.environment ≡ []
  pub read_only_root : spec.read_only_root ≡ true
  pub drop_capabilities : spec.drop_capabilities ≡ true
  pub limits : spec.limits ≡ default_limits
  pub covered : AreCovered P authorization default_limits
  pub source : spec.source_repository ≡ u.repository
  pub digest : spec.snapshot_digest ≡ u.snapshot_digest

-- The policy's answer to some plan.
abbrev pub IsPolicys : Python → PolicyConfig → Authorization → Type 0
IsPolicys P config a = (p : ExecutionPlan) × (Engine.authorize P (plan_value p) config ≡ ok a)

module _ (P : Python) (H : Host) (u : Order) (config : PolicyConfig) where
  confined-IsMediated :
      (t : Trace) (output : Text) (step : Value) (a : Authorization) (built spec : SandboxSpec)
      → IsPolicys P config a
      → IsConfined P H t output step (authorization_value a) default_limits built
      → record built { source_repository = u.repository; snapshot_digest = u.snapshot_digest }
        ≡ spec
      → IsMediated P u config spec
  confined-IsMediated t output step a built spec (p, authorized) c e =
      let own : c.authorization ≡ a =
        sym (canonical_authorization-own P a c.authorization c.canonical) in
      subst (IsMediated P u config) e (record {
        plan = p;
        authorization = a;
        authorized = authorized;
        network =
            subst
              (λ (x : Authorization).
                All (IsTarget x.decisions is_network_request) built.network_targets)
              own c.network;
        devices =
            subst
              (λ (x : Authorization). All (IsTarget x.decisions is_device_request) built.devices)
              own c.devices;
        environment = c.environment;
        read_only_root = c.read_only_root;
        drop_capabilities = c.drop_capabilities;
        limits = c.limits_kept;
        covered = subst (λ (x : Authorization). AreCovered P x default_limits) own c.covered;
        source = refl;
        digest = refl;
      })

module _ (P : Python) (H : Host) (S : Services) (u : Order) (s : Surveyed) where
  pub sandbox_of-IsMediated :
      (run_output : Text) (first : Bool) (step : PlanStep) (a : Authorization) (t t' : Trace)
      (spec : SandboxSpec)
      → IsPolicys P s.config a
      → sandbox_of P H S u s run_output first step a t ≡ (ok spec, t')
      → IsMediated P u s.config spec
  unfolding sandbox_of lift
  sandbox_of-IsMediated run_output first step a t t' spec policys h =
      invert_run
        (build P H u.execution_repository run_output (step_value step) (authorization_value a)
          u.image default_limits first)
        _ t h
        λ built t'' p h1.
          confined-IsMediated P H u s.config t run_output (step_value step) a built spec policys
            (build-IsConfined P H (step_value step) (authorization_value a) default_limits
              u.execution_repository run_output u.image first t t'' built p)
            (sandbox_spec-eq-ok _ spec (ap (λ x. x.0) h1))

-- What may be done: a container is started on a sandbox that the policy stands behind.
abbrev pub IsAnswered : Python → Order → PolicyConfig → Effect → Type 0
IsAnswered P u c (executed spec) = IsMediated P u c spec
IsAnswered P u c (made_parent p) = Unit
IsAnswered P u c (made_directory p) = Unit
IsAnswered P u c (opened_snapshot p) = Unit
IsAnswered P u c (closed_snapshot p) = Unit
IsAnswered P u c (removed_directory p) = Unit
IsAnswered P u c (assigned_directory p) = Unit
IsAnswered P u c (inventoried p) = Unit
IsAnswered P u c (dry_ran spec) = Unit

module _ (P : Python) (u : Order) (c : PolicyConfig) where
  unfoldable pub Answered : Trace → Type 0
  Answered = All (IsAnswered P u c)

  pub then_run-Answered {ℓ κ} :
      {A : Type ℓ} {B : Type κ} (m : Run A) (f : A → Run B) (t : Trace)
      → Answered (m t).1
      → ((a : A) (t' : Trace) → m t ≡ (ok a, t') → Answered t' → Answered (f a t').1)
      → Answered ((m then_run f) t).1
  unfolding Answered
  then_run-Answered m f t first rest =
      then_run-trace Answered m f t first λ a t' e. rest a t' e (subst (λ x. Answered x.1) e first)

  pub if-Answered {ℓ} :
      {A : Type ℓ} (b : Bool) (x y : Run A) (t : Trace)
      → Answered (x t).1
      → Answered (y t).1
      → Answered ((if b then x else y) t).1
  if-Answered true x y t h k = h
  if-Answered false x y t h k = k

  assigned-Answered : (p : Text) (t t' : Trace) → AtMostAssigned p t t' → Answered t → Answered t'
  unfolding Answered
  assigned-Answered p t t' (inl e) h = subst Answered (sym e) h
  assigned-Answered p t t' (inr e) h = subst Answered (sym e) (tt, h)

  clean_up-Answered :
      (p : Text) (r : Result Text × Trace) → Answered r.1 → Answered (clean_up p r).1
  unfolding clean_up Answered
  clean_up-Answered p (ok x, t) h = h
  clean_up-Answered p (err e, t) h = (tt, h)

  after_mkdir-Answered :
      (H : Host) (path : Text) (new : Bool) (p : Text) (t : Trace) (m : Mkdir)
      → Answered t
      → Answered (after_mkdir H path new p t m).1
  unfolding after_mkdir Answered
  after_mkdir-Answered H path new p t created h =
      clean_up-Answered p (inspect_directory H path p true (made_directory p ∷ t)) (
        assigned-Answered p (made_directory p ∷ t) _
          (inspect-AtMostAssigned H path p true (made_directory p ∷ t)) (tt, h))
  after_mkdir-Answered H path true p t exists h = h
  after_mkdir-Answered H path false p t exists h =
      assigned-Answered p t _ (inspect-AtMostAssigned H path p false t) h
  after_mkdir-Answered H path new p t refused h = h

  with_parents-Answered : (ps : List Text) (t : Trace) → Answered t → Answered (with_parents ps t)
  unfolding with_parents Answered
  with_parents-Answered [] t h = h
  with_parents-Answered (p ∷ ps) t h = with_parents-Answered ps (made_parent p ∷ t) (tt, h)

  pub build-Answered :
      (H : Host) (repository output : Text) (step proposed : Value) (image : Text)
      (limits : ResourceLimits) (fresh : Bool) (t : Trace)
      → Answered t
      → Answered (build P H repository output step proposed image limits fresh t).1
  unfolding build output_directory prepare_directory lift
  build-Answered H repository output step proposed image limits fresh t h =
      ask-trace Answered _ _ t h λ a. ask-trace Answered _ _ t h λ candidate.
        then_run-Answered (output_directory H candidate fresh) _ t
          (ask-trace Answered _ _ t h λ p.
            after_mkdir-Answered H candidate fresh p (with_parents (H.mkdir t p).0 t)
              (H.mkdir t p).1 (with_parents-Answered (H.mkdir t p).0 t h))
          λ r t' e k. k
