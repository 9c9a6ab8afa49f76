-- ===== src/Agent/Orchestrator/Laws/Effects.antt =====
-- src/r_sandbox/agent/orchestrator.py: how often a run starts a container.
use r_sandbox.Prelude.{
  is_empty, invert, ok-injective, ℕ, zero, suc, ◌+◌, ◌≤◌, ◌≡◌, refl, sym, ap, ◌∙◌, subst, Bool,
  true, false, Option, none, some, List, [], ◌∷◌, Text, arith, ok,
}
use r_sandbox.Prelude.Int.{ℤ, pos, negsuc}
use r_sandbox.Python.{Python}
use r_sandbox.System.{closed_snapshot, Trace, Run, Host}
use r_sandbox.Models.Records.{PlanStep, Authorization}
use r_sandbox.Models.Report.{AgentReport}
use r_sandbox.Models.Sandbox.{SandboxSpec}
use r_sandbox.Observe.Manifest.{OutputManifest}
use r_sandbox.Agent.Orchestrator.Services.{
  AgentMode, analyze, dry_run, shadow, Inventory, captured, limited, unsafe_output, Services,
  Snapshot, Order,
}
use r_sandbox.Agent.Orchestrator.Parts.{as_mode, attempts_of, malformed_proposal_rejected}
use r_sandbox.Agent.Orchestrator.Survey.{Surveyed, survey}
use r_sandbox.Agent.Orchestrator.Round.{
  Loop, Ending, returned, stopped, again, sandbox_of, run_sandbox, plan_sandbox, in_mode, round,
  next_round, rounds,
}
use r_sandbox.Agent.Orchestrator.Run.{
  capture, after_loop, attempt, start_shadow, start, run_directory, by_mode, dynamic, authorized,
  run_snapshot,
}
use r_sandbox.Agent.Orchestrator.Entry.{
  Request, Checked, checked, order_of, open_snapshot, close_snapshot, in_snapshot, run,
}
use r_sandbox.Agent.Orchestrator.Laws.Counting.{
  executions, AtMost, then_run-AtMost, quiet-AtMost, pure-AtMost, if-AtMost, ask-AtMost,
  asked-AtMost, lift-AtMost, build-AtMost,
}

-- What one round may start.
abbrev allowance : AgentMode → ℕ
allowance dry_run = 0
allowance _ = 1

module _ (P : Python) (H : Host) (S : Services) (u : Order) (s : Surveyed) where
  sandbox_of-AtMost :
      (run_output : Text) (first : Bool) (step : PlanStep) (a : Authorization) (t : Trace)
      → AtMost 0 (sandbox_of P H S u s run_output first step a) t
  unfolding sandbox_of
  sandbox_of-AtMost run_output first step a t =
      quiet-AtMost 0 _ _ t (build-AtMost P H _ _ _ _ _ _ first t) λ spec t'. lift-AtMost _ 0 t'

  run_sandbox-AtMost : (spec : SandboxSpec) (t : Trace) → AtMost 1 (run_sandbox S spec) t
  unfolding run_sandbox
  run_sandbox-AtMost spec t = omega arith

  plan_sandbox-AtMost : (spec : SandboxSpec) (t : Trace) → AtMost 0 (plan_sandbox S spec) t
  unfolding plan_sandbox
  plan_sandbox-AtMost spec t = omega arith

  in_mode-AtMost :
      (mode : AgentMode) (last : Bool) (l : Loop) (spec : SandboxSpec) (t : Trace)
      → AtMost (allowance mode) (in_mode P H S u s mode last l spec) t
  unfolding in_mode
  in_mode-AtMost dry_run last l spec t =
      quiet-AtMost 0 _ _ t (plan_sandbox-AtMost spec t) λ raw t'. lift-AtMost _ 0 t'
  in_mode-AtMost analyze last l spec t =
      pure-AtMost 1 _ _ t (run_sandbox-AtMost spec t) λ raw t'. lift-AtMost _ 0 t'
  in_mode-AtMost shadow last l spec t =
      pure-AtMost 1 _ _ t (run_sandbox-AtMost spec t) λ raw t'. lift-AtMost _ 0 t'

  round-AtMost :
      (run_output : Text) (first last : Bool) (l : Loop) (steps : List PlanStep) (t : Trace)
      → AtMost (allowance u.mode) (round P H S u s run_output first last l steps) t
  unfolding round
  round-AtMost run_output first last l [] t = lift-AtMost _ _ t
  round-AtMost run_output first last l (step ∷ steps) t =
      quiet-AtMost (allowance u.mode) _ _ t
        (sandbox_of-AtMost run_output first step l.authorization t)
        λ spec t'. in_mode-AtMost u.mode last _ spec t'

  next_round-AtMost :
      (n : ℕ) (more : Loop → Run Ending) (e : Ending) (t : Trace)
      → ((l : Loop) (t' : Trace) → AtMost n (more l) t')
      → AtMost n (next_round more e) t
  unfolding next_round
  next_round-AtMost n more (again l) t h = h l t
  next_round-AtMost n more (returned r) t h = lift-AtMost _ n t
  next_round-AtMost n more (stopped l) t h = lift-AtMost _ n t

  budget : ℕ → ℕ
  budget zero = 0
  budget (suc n) = allowance u.mode + budget n

  rounds-AtMost :
      (n : ℕ) (run_output : Text) (first : Bool) (l : Loop) (t : Trace)
      → AtMost (budget n) (rounds P H S u s run_output first n l) t
  unfolding rounds budget
  rounds-AtMost zero run_output first l t = lift-AtMost _ 0 t
  rounds-AtMost (suc n) run_output first l t =
      then_run-AtMost (allowance u.mode) (budget n) _ _ t (round-AtMost run_output first _ l _ t)
        λ e t'.
          next_round-AtMost (budget n) _ e t' λ l' t''. rounds-AtMost n run_output false l' t''

  budget-le : (n : ℕ) → budget n ≤ n
  unfolding budget
  budget-le zero = omega arith
  budget-le (suc n) = omega (arith, budget-le n, allowance-le u.mode)
    where
      allowance-le : (mode : AgentMode) → allowance mode ≤ 1
      allowance-le dry_run = omega arith
      allowance-le analyze = omega arith
      allowance-le shadow = omega arith

  budget-dry_run : u.mode ≡ dry_run → (n : ℕ) → budget n ≡ 0
  unfolding budget
  budget-dry_run e zero = refl
  budget-dry_run e (suc n) =
      let one : allowance u.mode ≡ 0 = ap allowance e in omega (arith, budget-dry_run e n, one)

  capture-AtMost : (run_output : Text) (t : Trace) → AtMost 0 (capture S run_output) t
  unfolding capture
  capture-AtMost run_output t = omega arith

  after_loop-AtMost :
      (run_output : Text) (before : Option OutputManifest) (e : Ending) (t : Trace)
      → AtMost 0 (after_loop P H S u s run_output before e) t
  unfolding after_loop
  after_loop-AtMost run_output before (returned r) t = lift-AtMost _ 0 t
  after_loop-AtMost run_output before (stopped l) t =
      quiet-AtMost 0 _ _ t (capture-AtMost run_output t) λ i t'. lift-AtMost _ 0 t'
  after_loop-AtMost run_output before (again l) t =
      quiet-AtMost 0 _ _ t (capture-AtMost run_output t) λ i t'. lift-AtMost _ 0 t'

  -- The attempts of this order.
  limit : ℕ
  limit = budget (attempts_of u.max_attempts)

  attempt-AtMost :
      (run_output : Text) (before : Option OutputManifest) (r : AgentReport) (t : Trace)
      → AtMost limit (attempt P H S u s run_output before r) t
  unfolding attempt limit
  attempt-AtMost run_output before r t =
      pure-AtMost (budget (attempts_of u.max_attempts)) _ _ t
        (rounds-AtMost (attempts_of u.max_attempts) run_output true _ t)
        (λ e t'. after_loop-AtMost run_output before e t')

  start-AtMost :
      (mode : AgentMode) (run_output : Text) (r : AgentReport) (t : Trace)
      → AtMost limit (start P H S u s mode run_output r) t
  unfolding start start_shadow
  start-AtMost shadow run_output r t =
      quiet-AtMost limit _ _ t (capture-AtMost run_output t) started
    where
      started :
          (i : Inventory) (t' : Trace) → AtMost limit (start_shadow P H S u s run_output r i) t'
      started (captured m) t' = attempt-AtMost run_output (some m) r t'
      started (limited e) t' = lift-AtMost _ limit t'
      started (unsafe_output n) t' = lift-AtMost _ limit t'
  start-AtMost analyze run_output r t = attempt-AtMost run_output none r t
  start-AtMost dry_run run_output r t = attempt-AtMost run_output none r t

-- The containers that a mode may start with so many attempts.
abbrev pub run_budget : AgentMode → ℕ → ℕ
run_budget shadow n = n
run_budget _ n = 0

module _ (P : Python) (H : Host) (S : Services) (u : Order) (s : Surveyed) where
  by_mode-AtMost :
      (mode : AgentMode) (r : AgentReport) (t : Trace)
      → u.mode ≡ mode
      → AtMost (run_budget mode (attempts_of u.max_attempts)) (by_mode P H S u s mode r) t
  unfolding by_mode limit
  by_mode-AtMost analyze r t e = lift-AtMost _ 0 t
  by_mode-AtMost dry_run r t e = ask-AtMost 0 _ _ t λ id.
      let h = start-AtMost P H S u s dry_run (run_directory P H S u s id) r t in
      let b = budget-dry_run P H S u s e (attempts_of u.max_attempts) in omega (arith, h, b)
  by_mode-AtMost shadow r t e = ask-AtMost (attempts_of u.max_attempts) _ _ t λ id.
      let h = start-AtMost P H S u s shadow (run_directory P H S u s id) r t in
      let b = budget-le P H S u s (attempts_of u.max_attempts) in omega (arith, h, b)

  authorized-AtMost :
      (t : Trace) → AtMost (run_budget u.mode (attempts_of u.max_attempts)) (authorized P H S u s) t
  unfolding authorized dynamic
  authorized-AtMost t =
      let n = run_budget u.mode (attempts_of u.max_attempts) in
      if-AtMost n (malformed_proposal_rejected s.first_authorization) _ _ t (lift-AtMost _ n t) (
        ask-AtMost n _ _ t λ r.
          if-AtMost n (is_empty s.first_plan.steps) _ _ t (lift-AtMost _ n t)
            (by_mode-AtMost u.mode r t refl))

-- What the checks say of the mode.
pub checked-mode :
    (H : Host) (q : Request) (t : Trace) (c : Checked)
    → checked H q t ≡ ok c
    → as_mode q.mode ≡ ok c.mode
unfolding checked
checked-mode H q t c h = invert h λ m p1 h1. invert h1 λ g p2 h2. invert h2 λ r p3 h3.
    invert h3 λ _ p4 h4. invert h4 λ _ p5 h5. invert h5 λ o p6 h6. invert h6 λ _ p7 h7.
      invert h7
        λ x p8 h8. subst (λ (y : Checked). as_mode q.mode ≡ ok y.mode) (ok-injective _ _ h8) p1

-- The snapshot is closed behind all that was done in it.
pub in_snapshot-trace :
    (P : Python) (H : Host) (S : Services) (q : Request) (c : Checked) (s : Snapshot) (t : Trace)
    → (in_snapshot P H S q c s t).1
      ≡ closed_snapshot s.root ∷ (run_snapshot P H S (order_of q c s) t).1
unfolding in_snapshot close_snapshot
in_snapshot-trace P H S q c s t = refl

run_snapshot-AtMost :
    (P : Python) (H : Host) (S : Services) (u : Order) (t : Trace)
    → AtMost (run_budget u.mode (attempts_of u.max_attempts)) (run_snapshot P H S u) t
unfolding run_snapshot
run_snapshot-AtMost P H S u t =
    ask-AtMost (run_budget u.mode (attempts_of u.max_attempts)) (survey P S u) _ t
      λ s. authorized-AtMost P H S u s t

-- Whether it returns or raises, a run starts no container in the modes "analyze" and "dry-run",
-- and at most `max(1, min(max_attempts, 3))` of them in the mode "shadow".
pub run-executions :
    (P : Python) (H : Host) (S : Services) (q : Request) (mode : AgentMode) (t : Trace)
    → as_mode q.mode ≡ ok mode
    → executions (run P H S q t).1 ≤ executions t + run_budget mode (attempts_of q.max_attempts)
unfolding run open_snapshot order_of
run-executions P H S q mode t e =
    let n = run_budget mode (attempts_of q.max_attempts) in
    asked-AtMost n (checked H q) _ t λ c h.
      let here : c.mode ≡ mode = ok-injective _ _ (sym (checked-mode H q t c h) ∙ e) in
      quiet-AtMost n (open_snapshot S c.repository) (in_snapshot P H S q c) t (omega arith) λ s t'.
        rw (in_snapshot-trace P H S q c s t') (
          subst
            (λ x.
              AtMost (run_budget x (attempts_of q.max_attempts))
                (run_snapshot P H S (order_of q c s)) t')
            here (run_snapshot-AtMost P H S (order_of q c s) t'))

-- No more than three, whatever is asked for.
pub attempts_of-le : (n : ℤ) → (1 ≤ attempts_of n) × (attempts_of n ≤ 3)
unfolding attempts_of
attempts_of-le (pos n) = ground arith
attempts_of-le (negsuc n) = (omega arith, omega arith)
