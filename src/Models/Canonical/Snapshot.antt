-- ===== src/Models/Canonical/Snapshot.antt =====
-- src/r_sandbox/models.py: what `canonical_execution_result` lets pass.
use r_sandbox.Prelude.{
  ℕ, ◌≤◌, ◌≡◌, ap, ap₂, subst, Bool, true, false, Option, none, some, List, [], ◌∷◌, map, arith,
  Text, length, Raised, ok, invert, invert_guard, le_of_not_lt, ok-injective,
}
use r_sandbox.Prelude.Int.{ℤ}
use r_sandbox.Models.Enums.{AgentOutcome, RuntimeEvidenceSource, is_succeeded, is_failed}
use r_sandbox.Models.Records.{Number, bool, int, float, RuntimeEvent, ExecutionResult}
use r_sandbox.Models.Value.{Value, values, values-items}
use r_sandbox.Models.Canonical.{
  event_text, as_bool, as_source, canonical_event, canonical_events, as_outcome, as_exit_code,
  is_zero_exit, has_exit, is_processless, as_duration, valid_duration, as_stream, as_argument,
  as_arguments, as_values, canonical_execution_result,
}

abbrev exit_value : Option ℤ → Value
exit_value none = Value.nothing
exit_value (some n) = Value.num (int n)

abbrev pub event_value : RuntimeEvent → Value
event_value e =
    Value.runtime_event (Value.text e.event_type) (Value.text e.action) (Value.text e.target)
      (Value.num (bool e.allowed)) (Value.text e.detail) (Value.source e.source)

-- The object that holds a result.
abbrev pub result_value : ExecutionResult → Value
result_value r =
    Value.execution_result (Value.outcome r.status) (exit_value r.exit_code) (Value.text r.stdout)
      (Value.text r.stderr) (Value.num r.duration_seconds)
      (Value.tuple (values (map event_value r.events)))
      (Value.tuple (values (map Value.text r.command_preview)))

pub record IsConsistent (r : ExecutionResult) : Type 0 where
  pub succeeded : is_succeeded r.status ≡ true → is_zero_exit r.exit_code ≡ true
  pub failed : is_failed r.status ≡ true → is_zero_exit r.exit_code ≡ false
  pub no_process : is_processless r.status ≡ true → has_exit r.exit_code ≡ false
  pub duration : valid_duration r.duration_seconds ≡ true
  pub few_events : length r.events ≤ 10100

event_text-eq-ok :
    (v : Value) (name : Text) (maximum : ℕ) (allow_empty : Bool) (t : Text)
    → event_text v name maximum allow_empty ≡ ok t
    → v ≡ Value.text t
unfolding event_text
event_text-eq-ok (Value.text u) name maximum allow_empty t h =
    invert_guard _ _ h λ g h1. invert_guard _ _ h1 λ g' h2. ap Value.text (ok-injective _ _ h2)
event_text-eq-ok _ name maximum allow_empty t h = cc

as_bool-eq-ok : (v : Value) (e : Raised) (b : Bool) → as_bool v e ≡ ok b → v ≡ Value.num (bool b)
unfolding as_bool
as_bool-eq-ok (Value.num (bool c)) e b h = cc
as_bool-eq-ok _ e b h = cc

as_source-eq-ok :
    (v : Value) (e : Raised) (s : RuntimeEvidenceSource) → as_source v e ≡ ok s → v ≡ Value.source s
unfolding as_source
as_source-eq-ok (Value.source c) e b h = cc
as_source-eq-ok _ e b h = cc

as_outcome-eq-ok : (v : Value) (o : AgentOutcome) → as_outcome v ≡ ok o → v ≡ Value.outcome o
unfolding as_outcome
as_outcome-eq-ok (Value.outcome p) o h = cc
as_outcome-eq-ok _ o h = cc

as_exit_code-eq-ok : (v : Value) (n : Option ℤ) → as_exit_code v ≡ ok n → v ≡ exit_value n
unfolding as_exit_code
as_exit_code-eq-ok Value.nothing n h = ap exit_value (ok-injective _ _ h)
as_exit_code-eq-ok (Value.num (int m)) n h = ground arith
as_exit_code-eq-ok (Value.num (bool m)) n h = cc
as_exit_code-eq-ok (Value.num (float m)) n h = cc
as_exit_code-eq-ok _ n h = cc

as_duration-eq-ok :
    (v : Value) (n : Number) → as_duration v ≡ ok n → (v ≡ Value.num n) × (valid_duration n ≡ true)
unfolding as_duration
as_duration-eq-ok (Value.num m) n h = ground arith
as_duration-eq-ok _ n h = cc

as_stream-eq-ok : (v : Value) (name t : Text) → as_stream v name ≡ ok t → v ≡ Value.text t
unfolding as_stream
as_stream-eq-ok (Value.text u) name t h =
    invert_guard _ _ h λ g h1. ap Value.text (ok-injective _ _ h1)
as_stream-eq-ok _ name t h = cc

as_argument-eq-ok : (v : Value) (t : Text) → as_argument v ≡ ok t → v ≡ Value.text t
unfolding as_argument
as_argument-eq-ok (Value.text u) t h =
    invert_guard _ _ h λ g h1. ap Value.text (ok-injective _ _ h1)
as_argument-eq-ok _ t h = cc

as_values-eq-ok :
    (v : Value) (e : Raised) (vs : List Value) → as_values v e ≡ ok vs → v ≡ Value.tuple (values vs)
unfolding as_values
as_values-eq-ok (Value.tuple ws) e vs h = cc (values-items ws)
as_values-eq-ok _ e vs h = cc

as_arguments-eq-ok :
    (vs : List Value) (ts : List Text) → as_arguments vs ≡ ok ts → vs ≡ map Value.text ts
unfolding as_arguments
as_arguments-eq-ok [] ts h = ap (map Value.text) (ok-injective _ _ h)
as_arguments-eq-ok (v ∷ vs) ts h = invert h λ t p h1. invert h1 λ us q h2.
    subst (λ x. v ∷ vs ≡ map Value.text x) (ok-injective _ _ h2)
      (ap₂ (λ x y. x ∷ y) (as_argument-eq-ok v t p) (as_arguments-eq-ok vs us q))

canonical_event-eq-ok :
    (v : Value) (e : RuntimeEvent) → canonical_event v ≡ ok e → v ≡ event_value e
unfolding canonical_event
canonical_event-eq-ok (Value.runtime_event k a g b d s) e h = invert h λ k' p1 h1.
    invert h1 λ a' p2 h2. invert h2 λ g' p3 h3. invert h3 λ d' p4 h4. invert h4 λ b' p5 h5.
      invert h5 λ s' p6 h6.
        subst (λ x. Value.runtime_event k a g b d s ≡ event_value x) (ok-injective _ _ h6)
          (rw (
            event_text-eq-ok k _ _ _ k' p1,
            event_text-eq-ok a _ _ _ a' p2,
            event_text-eq-ok g _ _ _ g' p3,
            event_text-eq-ok d _ _ _ d' p4,
            as_bool-eq-ok b _ b' p5,
            as_source-eq-ok s _ s' p6,
          ))
canonical_event-eq-ok _ e h = cc

canonical_events-eq-ok :
    (vs : List Value) (es : List RuntimeEvent)
    → canonical_events vs ≡ ok es
    → vs ≡ map event_value es
unfolding canonical_events
canonical_events-eq-ok [] es h = ap (map event_value) (ok-injective _ _ h)
canonical_events-eq-ok (v ∷ vs) es h = invert h λ e p h1. invert h1 λ fs q h2.
    subst (λ x. v ∷ vs ≡ map event_value x) (ok-injective _ _ h2)
      (ap₂ (λ x y. x ∷ y) (canonical_event-eq-ok v e p) (canonical_events-eq-ok vs fs q))

-- A run that passes the trust boundary is the supervisor's object itself, field for field, and it is
-- consistent: a success has exit code 0, a failure another or none, an outcome without a process
-- has none, the duration is finite and not negative, and the events are at most 10,100.
pub canonical_execution_result-IsConsistent :
    (v : Value) (r : ExecutionResult)
    → canonical_execution_result v ≡ ok r
    → (v ≡ result_value r) × IsConsistent r
unfolding canonical_execution_result
canonical_execution_result-IsConsistent (Value.execution_result s c o e d vs a) r h =
    invert h λ evs p1 h1. invert h1 λ es p2 h2. invert h2 λ s' p3 h3. invert h3 λ c' p4 h4.
      invert_guard _ _ h4 λ g1 h5. invert_guard _ _ h5 λ g2 h6. invert_guard _ _ h6 λ g3 h7.
        invert h7 λ d' p5 h8. invert h8 λ o' p6 h9. invert h9 λ e' p7 h10.
          invert_guard _ _ h10 λ g4 h11. invert h11 λ avs p8 h12. invert_guard _ _ h12 λ g5 h13.
            invert h13 λ a' p9 h14.
              let (same_duration, finite) = as_duration-eq-ok d d' p5 in
              subst (λ x. (Value.execution_result s c o e d vs a ≡ result_value x) × IsConsistent x)
                (ok-injective _ _ h14)
                (
                  rw (
                    as_outcome-eq-ok s s' p3,
                    as_exit_code-eq-ok c c' p4,
                    as_stream-eq-ok o _ o' p6,
                    as_stream-eq-ok e _ e' p7,
                    same_duration,
                    as_values-eq-ok vs _ evs p1,
                    canonical_events-eq-ok evs es p2,
                    as_values-eq-ok a _ avs p8,
                    as_arguments-eq-ok avs a' p9,
                  ),
                  record {
                    succeeded = λ y. ground arith;
                    failed = λ y. ground arith;
                    no_process = λ y. ground arith;
                    duration = finite;
                    few_events = le_of_not_lt _ _ g4;
                  },
                )
canonical_execution_result-IsConsistent _ r h = cc
