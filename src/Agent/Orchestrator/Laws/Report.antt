-- ===== src/Agent/Orchestrator/Laws/Report.antt =====
-- src/r_sandbox/agent/orchestrator.py: the report that `run` returns.
use r_sandbox.Prelude.{
  lit, true, ◌≡◌, refl, ap, ◌∙◌, subst, Option, none, some, List, [], ◌∷◌, ◌++◌, Text, is_empty,
  Result, ok, err, invert, ok-injective,
}
use r_sandbox.Python.{Python}
use r_sandbox.System.{Trace, ask, Host}
use r_sandbox.Models.Enums.{AgentOutcome}
use r_sandbox.Models.Records.{RepositoryProfile, ExecutionResult}
use r_sandbox.Models.Report.{AgentReport, new_report, record_phase, note}
use r_sandbox.Models.Canonical.Snapshot.{result_value, canonical_execution_result-IsConsistent}
use r_sandbox.Observe.Manifest.{OutputManifest, ManifestDiff}
use r_sandbox.Agent.Orchestrator.Services.{
  AgentMode, analyze, dry_run, shadow, Inventory, captured, limited, unsafe_output, Services,
  Snapshot, Order,
}
use r_sandbox.Agent.Orchestrator.Parts.{attempts_of, malformed_proposal_rejected}
use r_sandbox.Agent.Orchestrator.Survey.{
  Surveyed, localized, planned_report, survey_profile, survey, rejected_report, static_report,
}
use r_sandbox.Agent.Orchestrator.Round.{Loop, Ending, returned, stopped, again, with_execution}
use r_sandbox.Agent.Orchestrator.Run.{
  capture, static_only, checked_result, downgraded, uninventoried_report, replace_last,
  downgraded_report, compare, compared_report, finished_report, after_loop, attempt, start_shadow,
  start, run_directory, by_mode, dynamic, authorized, run_snapshot,
}
use r_sandbox.Agent.Orchestrator.Entry.{
  Request, checked, order_of, open_snapshot, close_snapshot, released, in_snapshot, run,
}
use r_sandbox.Agent.Orchestrator.Laws.Coherence.{
  IsUnrun, FitTogether, IsCoherent, Ensures, lift-Ensures, if-Ensures, then_run-Ensures,
  rest-Ensures, ask-Ensures, EndsWell, rounds-EndsWell,
}

checked_result-status : (r e : ExecutionResult) → checked_result r ≡ ok e → r.status ≡ e.status
unfolding checked_result
checked_result-status r e h =
    let same_object = (canonical_execution_result-IsConsistent (result_value r) e h).0 in
    cc same_object

replace_last-append :
    (e x : ExecutionResult) (older : List ExecutionResult)
    → replace_last e (older ++ x ∷ []) ≡ older ++ e ∷ []
unfolding replace_last
replace_last-append e x [] = refl
replace_last-append e x (a ∷ []) = refl
replace_last-append e x (a ∷ b ∷ older) = ap (λ xs. a ∷ xs) (replace_last-append e x (b ∷ older))

-- A report before any execution.
abbrev IsUntouched : AgentReport → Type 0
IsUntouched r = (r.execution ≡ none) × ((r.execution_history ≡ []) × IsUnrun r.outcome)

untouched-FitTogether :
    (e : Option ExecutionResult) (history : List ExecutionResult) (o : AgentOutcome)
    → e ≡ none
    → history ≡ []
    → IsUnrun o
    → FitTogether e history o
untouched-FitTogether none history o p q i = (q, i)
untouched-FitTogether (some e) history o p q i = cc p

module _ (P : Python) (s : Surveyed) where
  uninventoried-IsCoherent :
      (i : Inventory) (r out : AgentReport) → uninventoried_report P s i r ≡ ok out → IsCoherent out
  unfolding uninventoried_report with_execution record_phase note
  uninventoried-IsCoherent i r out h = invert h λ e p1 h1. invert h1 λ f p2 h2.
      invert h2 λ a p3 h3. subst IsCoherent (ok-injective _ _ h3) (r.execution_history, refl, refl)

  downgraded-IsCoherent :
      (i : Inventory) (l : Loop) (o : Option ExecutionResult) (out : AgentReport)
      → FitTogether o l.current_report.execution_history l.current_report.outcome
      → downgraded_report P s i l o ≡ ok out
      → IsCoherent out
  unfolding downgraded_report downgraded record_phase note
  downgraded-IsCoherent i l none out h p = cc p
  downgraded-IsCoherent i l (some before) out (older, same_history, o) p = invert p λ e p1 h1.
      invert h1 λ f p2 h2. invert h2 λ a p3 h3. subst IsCoherent (ok-injective _ _ h3) (
        older,
        ap (replace_last e) same_history ∙ replace_last-append e before older,
        checked_result-status (downgraded i before) e p1,
      )

  compare-IsCoherent :
      (l : Loop) (d : Result ManifestDiff) (out : AgentReport)
      → IsCoherent l.current_report
      → compare P s l d ≡ ok out
      → IsCoherent out
  unfolding compare
  compare-IsCoherent l (ok d) out h p = subst IsCoherent (ok-injective _ _ p) h
  compare-IsCoherent l (err e) out h p =
      downgraded-IsCoherent (unsafe_output (lit "ValueError")) l l.current_report.execution out h p

  compared-IsCoherent :
      (before : OutputManifest) (l : Loop) (i : Inventory) (out : AgentReport)
      → IsCoherent l.current_report
      → compared_report P s before l i ≡ ok out
      → IsCoherent out
  unfolding compared_report
  compared-IsCoherent before l (captured after) out h p = compare-IsCoherent l _ out h p
  compared-IsCoherent before l (limited e) out h p =
      downgraded-IsCoherent (limited e) l l.current_report.execution out h p
  compared-IsCoherent before l (unsafe_output n) out h p =
      downgraded-IsCoherent (unsafe_output n) l l.current_report.execution out h p

  finished-IsCoherent :
      (before : Option OutputManifest) (l : Loop) (i : Inventory) (out : AgentReport)
      → IsCoherent l.current_report
      → finished_report P s before l i ≡ ok out
      → IsCoherent out
  unfolding finished_report record_phase
  finished-IsCoherent none l (captured after) out h p = cc p
  finished-IsCoherent none l (limited e) out h p = invert p λ r p1 h1.
      subst IsCoherent (ok-injective _ _ h1)
        (downgraded-IsCoherent (limited e) l l.current_report.execution r h p1)
  finished-IsCoherent none l (unsafe_output n) out h p = invert p λ r p1 h1.
      subst IsCoherent (ok-injective _ _ h1)
        (downgraded-IsCoherent (unsafe_output n) l l.current_report.execution r h p1)
  finished-IsCoherent (some before) l i out h p =
      invert p
        λ r p1 h1. subst IsCoherent (ok-injective _ _ h1) (compared-IsCoherent before l i r h p1)

  rejected-IsCoherent :
      (out : AgentReport)
      → IsUntouched s.first_report
      → rejected_report P s ≡ ok out
      → IsCoherent out
  unfolding rejected_report record_phase note
  rejected-IsCoherent out h p = invert p λ q p1 h1. invert h1 λ a p2 h2.
      subst IsCoherent (ok-injective _ _ h2) (
        untouched-FitTogether s.first_report.execution s.first_report.execution_history _ h.0 h.1.0
          tt)

  static-IsCoherent :
      (u : Order) (out : AgentReport)
      → IsUntouched s.first_report
      → static_report P u s ≡ ok out
      → IsCoherent out
  unfolding static_report record_phase
  static-IsCoherent u out h p = invert p λ a p1 h1. subst IsCoherent (ok-injective _ _ h1) (
      untouched-FitTogether s.first_report.execution s.first_report.execution_history
        s.first_report.outcome h.0 h.1.0 h.1.1)

survey_profile-IsUntouched :
    (P : Python) (S : Services) (u : Order) (p : RepositoryProfile) (s : Surveyed)
    → survey_profile P S u p ≡ ok s
    → IsUntouched s.first_report
unfolding survey_profile planned_report new_report record_phase
survey_profile-IsUntouched P S u p s h = invert h λ c p1 h1. invert h1 λ q p2 h2.
    invert h2 λ a p3 h3.
      subst (λ (x : Surveyed). IsUntouched x.first_report) (ok-injective _ _ h3) (refl, (refl, tt))

survey-IsUntouched :
    (P : Python) (S : Services) (u : Order) (t : Trace) (s : Surveyed)
    → survey P S u t ≡ ok s
    → IsUntouched s.first_report
unfolding survey
survey-IsUntouched P S u t s h =
    invert h λ p p1 h1. survey_profile-IsUntouched P S u (localized u p) s h1

module _ (P : Python) (H : Host) (S : Services) (u : Order) (s : Surveyed) where
  after_loop-IsCoherent :
      (run_output : Text) (before : Option OutputManifest) (e : Ending)
      → EndsWell e
      → Ensures IsCoherent (after_loop P H S u s run_output before e)
  unfolding after_loop
  after_loop-IsCoherent run_output before (returned r) h =
      lift-Ensures IsCoherent _ λ out p. subst IsCoherent (ok-injective _ _ p) h
  after_loop-IsCoherent run_output before (stopped l) h =
      rest-Ensures IsCoherent (capture S run_output) _
        λ i. lift-Ensures IsCoherent _ λ out p. finished-IsCoherent P s before l i out h p
  after_loop-IsCoherent run_output before (again l) h =
      rest-Ensures IsCoherent (capture S run_output) _
        λ i. lift-Ensures IsCoherent _ λ out p. finished-IsCoherent P s before l i out h p

  attempt-IsCoherent :
      (run_output : Text) (before : Option OutputManifest) (r : AgentReport)
      → IsCoherent r
      → Ensures IsCoherent (attempt P H S u s run_output before r)
  unfolding attempt
  attempt-IsCoherent run_output before r h =
      then_run-Ensures EndsWell IsCoherent _ _
        (rounds-EndsWell P H S u s (attempts_of u.max_attempts) run_output true _ h)
        λ e k. after_loop-IsCoherent run_output before e k

  start_shadow-IsCoherent :
      (run_output : Text) (r : AgentReport) (i : Inventory)
      → IsCoherent r
      → Ensures IsCoherent (start_shadow P H S u s run_output r i)
  unfolding start_shadow
  start_shadow-IsCoherent run_output r (captured m) h = attempt-IsCoherent run_output (some m) r h
  start_shadow-IsCoherent run_output r (limited e) h =
      lift-Ensures IsCoherent _ λ out p. uninventoried-IsCoherent P s (limited e) r out p
  start_shadow-IsCoherent run_output r (unsafe_output n) h =
      lift-Ensures IsCoherent _ λ out p. uninventoried-IsCoherent P s (unsafe_output n) r out p

  by_mode-IsCoherent :
      (mode : AgentMode) (r : AgentReport)
      → IsCoherent r
      → Ensures IsCoherent (by_mode P H S u s mode r)
  unfolding by_mode start static_only record_phase note
  by_mode-IsCoherent analyze r h =
      lift-Ensures IsCoherent _ λ out p. subst IsCoherent (ok-injective _ _ p) h
  by_mode-IsCoherent dry_run r h =
      rest-Ensures IsCoherent _ _ λ id. attempt-IsCoherent (run_directory P H S u s id) none r h
  by_mode-IsCoherent shadow r h = rest-Ensures IsCoherent _ _ λ id.
      rest-Ensures IsCoherent _ _ λ i. start_shadow-IsCoherent (run_directory P H S u s id) r i h

  authorized-IsCoherent : IsUntouched s.first_report → Ensures IsCoherent (authorized P H S u s)
  unfolding authorized dynamic static_only record_phase note
  authorized-IsCoherent h =
      if-Ensures IsCoherent (malformed_proposal_rejected s.first_authorization) _ _
        (lift-Ensures IsCoherent _ λ out p. rejected-IsCoherent P s out h p)
        (ask-Ensures IsCoherent _ _ λ r t p.
          let fits = static-IsCoherent P s u r h p in
          if-Ensures IsCoherent (is_empty s.first_plan.steps) _ _
            (lift-Ensures IsCoherent _ λ out q. subst IsCoherent (ok-injective _ _ q) fits)
            (by_mode-IsCoherent u.mode r fits))

-- A block that returned has returned inside of the snapshot.
close_snapshot-eq-ok {ℓ} :
    {A : Type ℓ} (S : Services) (s : Snapshot) (r : Result A × Trace) (a : A) (t : Trace)
    → close_snapshot S s r ≡ (ok a, t)
    → r ≡ (ok a, r.1)
unfolding close_snapshot released
close_snapshot-eq-ok {A} S s (r, t0) a t h =
    ap (λ y. (y, t0)) (go r (S.release t0 s) (ap (λ x. x.0) h))
  where
    go : (x : Result A) (left : Result (Unit {0})) → released x left ≡ ok a → x ≡ ok a
    go x (ok u) e = e
    go x (err e0) e = absurd (cc e)

-- The report that `run` returns is consistent: without an execution its history is empty and its
-- outcome is ANALYZED or BLOCKED, and else the execution is the last of its history and has the
-- status of the report, also after a failed inventory of the output.
pub run-IsCoherent :
    (P : Python) (H : Host) (S : Services) (q : Request) (t t' : Trace) (r : AgentReport)
    → run P H S q t ≡ (ok r, t')
    → IsCoherent r
unfolding run run_snapshot in_snapshot Ensures
run-IsCoherent P H S q t t' r h =
    let inside : (u : Order) → Ensures IsCoherent (run_snapshot P H S u) = λ u.
      ask-Ensures IsCoherent (survey P S u) (authorized P H S u)
        λ s t p. authorized-IsCoherent P H S u s (survey-IsUntouched P S u t s p) in
    let all_runs : Ensures IsCoherent (run P H S q) =
      rest-Ensures IsCoherent (ask (checked H q)) _ λ c.
        rest-Ensures IsCoherent (open_snapshot S c.repository) (in_snapshot P H S q c)
          λ s t t' a e. inside (order_of q c s) t _ a (close_snapshot-eq-ok S s _ a t' e) in
    all_runs t t' r h
