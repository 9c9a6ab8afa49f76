-- ===== src/Agent/Orchestrator/Laws/Mediation.antt =====
-- src/r_sandbox/agent/orchestrator.py: what the started containers were authorized to do.
use r_sandbox.Prelude.{
  ℕ, ◌==◌, zero, suc, ◌≡◌, refl, sym, ap, ◌∙◌, subst, Bool, true, false, Option, none, some, List,
  [], ◌∷◌, Text, All, is_empty, ok,
}
use r_sandbox.Python.{Python}
use r_sandbox.System.{Trace, Run, lift, ask, continue, ◌then_run◌, Host}
use r_sandbox.System.Laws.{ask-trace, invert_run}
use r_sandbox.Models.Records.{PlanStep, Authorization}
use r_sandbox.Models.Report.{AgentReport}
use r_sandbox.Models.Sandbox.{SandboxSpec}
use r_sandbox.Models.Value.{plan_value, step_value, authorization_value}
use r_sandbox.Policy.Engine as Engine
use r_sandbox.Agent.Orchestrator.Services.{
  AgentMode, analyze, dry_run, shadow, Inventory, captured, limited, unsafe_output, Services, Order,
}
use r_sandbox.Agent.Orchestrator.Parts.{attempts_of, malformed_proposal_rejected}
use r_sandbox.Observe.Manifest.{OutputManifest}
use r_sandbox.Agent.Orchestrator.Survey.{Surveyed, survey}
use r_sandbox.Agent.Orchestrator.Round.{
  Loop, Ending, returned, stopped, again, default_limits, sandbox_of, run_sandbox, plan_sandbox,
  in_mode, round, next_round, rounds,
}
use r_sandbox.Agent.Orchestrator.Run.{
  capture, after_loop, attempt, start_shadow, start, run_directory, by_mode, dynamic, authorized,
  run_snapshot,
}
use r_sandbox.Agent.Orchestrator.Laws.Static.{survey-authorize}
use r_sandbox.Agent.Orchestrator.Laws.Retry.{in_mode-IsRetry}
use r_sandbox.Agent.Orchestrator.Laws.Answered.{
  IsMediated, IsPolicys, sandbox_of-IsMediated, IsAnswered, Answered, then_run-Answered,
  if-Answered, build-Answered,
}

module _ (P : Python) (H : Host) (S : Services) (u : Order) (s : Surveyed) where
  in_mode-Answered :
      (mode : AgentMode) (last : Bool) (l : Loop) (spec : SandboxSpec) (t : Trace)
      → IsMediated P u s.config spec
      → Answered P u s.config t
      → Answered P u s.config (in_mode P H S u s mode last l spec t).1
  unfolding in_mode lift run_sandbox plan_sandbox Answered
  in_mode-Answered dry_run last l spec t i h =
      then_run-Answered P u s.config (plan_sandbox S spec) _ t (tt, h) λ raw t' e k. k
  in_mode-Answered analyze last l spec t i h =
      then_run-Answered P u s.config (run_sandbox S spec) _ t (i, h) λ raw t' e k. k
  in_mode-Answered shadow last l spec t i h =
      then_run-Answered P u s.config (run_sandbox S spec) _ t (i, h) λ raw t' e k. k

  sandbox_of-Answered :
      (run_output : Text) (first : Bool) (step : PlanStep) (a : Authorization) (t : Trace)
      → Answered P u s.config t
      → Answered P u s.config (sandbox_of P H S u s run_output first step a t).1
  unfolding sandbox_of lift
  sandbox_of-Answered run_output first step a t h =
      then_run-Answered P u s.config _ _ t
        (build-Answered P u s.config H u.execution_repository run_output (step_value step)
          (authorization_value a) u.image default_limits first t h)
        λ built t' e k. k

  round-Answered :
      (run_output : Text) (first last : Bool) (l : Loop) (steps : List PlanStep) (t : Trace)
      → IsPolicys P s.config l.authorization
      → Answered P u s.config t
      → Answered P u s.config (round P H S u s run_output first last l steps t).1
  unfolding round lift
  round-Answered run_output first last l [] t p h = h
  round-Answered run_output first last l (step ∷ steps) t p h =
      then_run-Answered P u s.config (sandbox_of P H S u s run_output first step l.authorization) _
        t (sandbox_of-Answered run_output first step l.authorization t h)
        λ spec t' e k.
          in_mode-Answered u.mode last _ spec t'
            (sandbox_of-IsMediated P H S u s run_output first step l.authorization t t' spec p e) k

  -- A next round has its authorization from the policy too.
  round-IsPolicys :
      (run_output : Text) (first last : Bool) (l next : Loop) (steps : List PlanStep) (t t' : Trace)
      → round P H S u s run_output first last l steps t ≡ (ok (again next), t')
      → IsPolicys P s.config next.authorization
  unfolding round lift
  round-IsPolicys run_output first last l next [] t t' h = cc h
  round-IsPolicys run_output first last l next (step ∷ steps) t t' h =
      invert_run (sandbox_of P H S u s run_output first step l.authorization) _ t h λ spec t'' p h1.
        let (i, left) = in_mode-IsRetry P H S u s u.mode last _ next spec t'' t' h1 in
        (next.current_plan, i.authorized)

  next_round-Answered :
      (more : Loop → Run Ending) (e : Ending) (t : Trace)
      → ((next : Loop) → e ≡ again next → Answered P u s.config (more next t).1)
      → Answered P u s.config t
      → Answered P u s.config (next_round more e t).1
  unfolding next_round lift
  next_round-Answered more (again next) t f h = f next refl
  next_round-Answered more (returned r) t f h = h
  next_round-Answered more (stopped x) t f h = h

  rounds-Answered :
      (n : ℕ) (run_output : Text) (first : Bool) (l : Loop) (t : Trace)
      → IsPolicys P s.config l.authorization
      → Answered P u s.config t
      → Answered P u s.config (rounds P H S u s run_output first n l t).1
  unfolding rounds lift
  rounds-Answered zero run_output first l t p h = h
  rounds-Answered (suc n) run_output first l t p h =
      then_run-Answered P u s.config _ _ t
        (round-Answered run_output first (n == 0) l l.current_plan.steps t p h)
        λ e t' same k.
          next_round-Answered (rounds P H S u s run_output false n) e t'
            (λ next here.
              rounds-Answered n run_output false next t'
                (round-IsPolicys run_output first (n == 0) l next l.current_plan.steps t t'
                  (same ∙ ap (λ x. (ok x, t')) here))
                k)
            k

  capture-Answered :
      (run_output : Text) (t : Trace)
      → Answered P u s.config t
      → Answered P u s.config (capture S run_output t).1
  unfolding capture Answered
  capture-Answered run_output t h = (tt, h)

  after_loop-Answered :
      (run_output : Text) (before : Option OutputManifest) (e : Ending) (t : Trace)
      → Answered P u s.config t
      → Answered P u s.config (after_loop P H S u s run_output before e t).1
  unfolding after_loop lift
  after_loop-Answered run_output before (returned r) t h = h
  after_loop-Answered run_output before (stopped l) t h =
      then_run-Answered P u s.config _ _ t (capture-Answered run_output t h) λ i t' e k. k
  after_loop-Answered run_output before (again l) t h =
      then_run-Answered P u s.config _ _ t (capture-Answered run_output t h) λ i t' e k. k

  module _
      (first : Engine.authorize P (plan_value s.first_plan) s.config
        ≡ ok s.first_authorization) where
    attempt-Answered :
        (run_output : Text) (before : Option OutputManifest) (r : AgentReport) (t : Trace)
        → Answered P u s.config t
        → Answered P u s.config (attempt P H S u s run_output before r t).1
    unfolding attempt
    attempt-Answered run_output before r t h =
        then_run-Answered P u s.config _ _ t
          (rounds-Answered (attempts_of u.max_attempts) run_output true _ t (s.first_plan, first) h)
          λ e t' same k. after_loop-Answered run_output before e t' k

    start_shadow-Answered :
        (run_output : Text) (r : AgentReport) (i : Inventory) (t : Trace)
        → Answered P u s.config t
        → Answered P u s.config (start_shadow P H S u s run_output r i t).1
    unfolding start_shadow lift
    start_shadow-Answered run_output r (captured m) t h = attempt-Answered run_output (some m) r t h
    start_shadow-Answered run_output r (limited e) t h = h
    start_shadow-Answered run_output r (unsafe_output n) t h = h

    by_mode-Answered :
        (mode : AgentMode) (r : AgentReport) (t : Trace)
        → Answered P u s.config t
        → Answered P u s.config (by_mode P H S u s mode r t).1
    unfolding by_mode start lift
    by_mode-Answered analyze r t h = h
    by_mode-Answered dry_run r t h =
        ask-trace (Answered P u s.config) _ _ t h
          λ id. attempt-Answered (run_directory P H S u s id) none r t h
    by_mode-Answered shadow r t h = ask-trace (Answered P u s.config) _ _ t h λ id.
        then_run-Answered P u s.config _ _ t (capture-Answered (run_directory P H S u s id) t h)
          λ i t' e k. start_shadow-Answered (run_directory P H S u s id) r i t' k

    authorized-Answered :
        (t : Trace) → Answered P u s.config t → Answered P u s.config (authorized P H S u s t).1
    unfolding authorized dynamic lift
    authorized-Answered t h =
        if-Answered P u s.config (malformed_proposal_rejected s.first_authorization) _ _ t h (
          ask-trace (Answered P u s.config) _ _ t h λ r.
            if-Answered P u s.config (is_empty s.first_plan.steps) _ _ t h
              (by_mode-Answered u.mode r t h))

-- Every container that a run starts, in each of its attempts, is mediated: its hosts and devices
-- are targets of ALLOW decisions that the policy made under the configuration of this run, ALLOW
-- decisions cover its limits, its environment is empty, its root read-only and its privileges
-- dropped, and it is bound to the repository and the digest of the snapshot.
pub run_snapshot-IsMediated :
    (P : Python) (H : Host) (S : Services) (u : Order) (s : Surveyed)
    → survey P S u [] ≡ ok s
    → All (IsAnswered P u s.config) (run_snapshot P H S u []).1
unfolding run_snapshot Answered ask ◌then_run◌ continue
run_snapshot-IsMediated P H S u s surveyed =
    subst (λ r. All (IsAnswered P u s.config) (continue (authorized P H S u) (r, [])).1)
      (sym surveyed) (authorized-Answered P H S u s (survey-authorize P S u [] s surveyed) [] tt)
