-- ===== src/Models/Payload/Encodable.antt =====
-- src/r_sandbox/models.py: the encoding of a serialized execution.
use r_sandbox.Prelude.{
  ◌≡◌, refl, sym, subst, true, none, List, [], ◌∷◌, Text, lit, All, all, map, Bool-cases, inl, inr,
  same, same→eq, one_of, and_true, utf8_encodable, is_surrogate, if◌then◌else◌,
}
use r_sandbox.Models.Enums.{
  AgentOutcome, analyzed, planned, succeeded, failed, blocked, awaiting_approval,
  runtime_unavailable, outcome_value, RuntimeEvidenceSource, target_telemetry, supervisor,
  independent_observer, is_target_telemetry, source_text,
}
use r_sandbox.Models.Records.{RuntimeEvent, ExecutionResult}
use r_sandbox.Models.Payload.{
  utf8_safe_report_text, EventPayload, event_payload, target_event_types, target_event_actions,
  redact, event_payloads, ExecutionPayload, execution_payload,
}
use r_sandbox.Models.Payload.Laws.{utf8_safe_report_text-utf8_encodable}

abbrev pub IsUtf8 : Text → Type 0
IsUtf8 t = utf8_encodable t ≡ true

pub record IsUtf8Event (p : EventPayload) : Type 0 where
  pub event_type : IsUtf8 p.event_type
  pub action : IsUtf8 p.action
  pub target : IsUtf8 p.target
  pub detail : IsUtf8 p.detail
  pub source : IsUtf8 p.source

-- Each text of the payload can be encoded.
pub record IsUtf8Payload (p : ExecutionPayload) : Type 0 where
  pub status : IsUtf8 p.status
  pub stdout : p.stdout ≡ none
  pub stderr : p.stderr ≡ none
  pub events : All IsUtf8Event p.events
  pub command_preview : All IsUtf8 p.command_preview

outcome_value-IsUtf8 : (o : AgentOutcome) → IsUtf8 (outcome_value o)
unfolding outcome_value utf8_encodable lit is_surrogate
outcome_value-IsUtf8 analyzed = refl
outcome_value-IsUtf8 planned = refl
outcome_value-IsUtf8 succeeded = refl
outcome_value-IsUtf8 failed = refl
outcome_value-IsUtf8 blocked = refl
outcome_value-IsUtf8 awaiting_approval = refl
outcome_value-IsUtf8 runtime_unavailable = refl

source_text-IsUtf8 : (s : RuntimeEvidenceSource) → IsUtf8 (source_text s)
unfolding source_text utf8_encodable lit is_surrogate
source_text-IsUtf8 target_telemetry = refl
source_text-IsUtf8 supervisor = refl
source_text-IsUtf8 independent_observer = refl

event_payload-IsUtf8Event : (e : RuntimeEvent) → IsUtf8Event (event_payload e)
unfolding event_payload
event_payload-IsUtf8Event e = record {
  event_type = utf8_safe_report_text-utf8_encodable e.event_type;
  action = utf8_safe_report_text-utf8_encodable e.action;
  target = utf8_safe_report_text-utf8_encodable e.target;
  detail = utf8_safe_report_text-utf8_encodable e.detail;
  source = source_text-IsUtf8 e.source;
}

-- A member of a set of texts that can be encoded.
one_of-IsUtf8 :
    (t : Text) (set : List Text) → all utf8_encodable set ≡ true → one_of t set ≡ true → IsUtf8 t
unfolding one_of
one_of-IsUtf8 t [] h k = absurd (cc k)
one_of-IsUtf8 t (s ∷ set) h k =
    let (p, rest) = and_true (utf8_encodable s) _ h in
    elim (Bool-cases (same t s)) [
      | inl e ↦ subst IsUtf8 (sym (same→eq t s e)) p
      | inr other ↦ one_of-IsUtf8 t set rest (rw other at k)
    ]

known-IsUtf8 :
    (t other : Text) (set : List Text)
    → all utf8_encodable set ≡ true
    → IsUtf8 other
    → IsUtf8 (if one_of t set then t else other)
known-IsUtf8 t other set h k = elim (Bool-cases (one_of t set)) [
  | inl known ↦ rw known (one_of-IsUtf8 t set h known)
  | inr unknown ↦ rw unknown k
]

types-IsUtf8 : all utf8_encodable target_event_types ≡ true
unfolding target_event_types utf8_encodable lit is_surrogate
types-IsUtf8 = refl

actions-IsUtf8 : all utf8_encodable target_event_actions ≡ true
unfolding target_event_actions utf8_encodable lit is_surrogate
actions-IsUtf8 = refl

marks-IsUtf8 :
    IsUtf8 (lit "unrecognized_target_event")
    × IsUtf8 (lit "unrecognized_target_action")
    × IsUtf8 (lit "<target-controlled-content-omitted>")
    × IsUtf8 (lit "Target-controlled content omitted from report.")
unfolding utf8_encodable lit is_surrogate
marks-IsUtf8 = (refl, refl, refl, refl)

redact-IsUtf8Event :
    (e : RuntimeEvent) (p : EventPayload) → IsUtf8Event p → IsUtf8Event (redact e p)
unfolding redact
redact-IsUtf8Event e p h = elim (Bool-cases (is_target_telemetry e.source)) [
  | inl own ↦
      let (event, action, target, detail) = marks-IsUtf8 in
      rw own (record {
        event_type = known-IsUtf8 e.event_type _ target_event_types types-IsUtf8 event;
        action = known-IsUtf8 e.action _ target_event_actions actions-IsUtf8 action;
        target = target;
        detail = detail;
        source = h.source;
      })
  | inr other ↦ rw other h
]

event_payloads-IsUtf8 : (es : List RuntimeEvent) → All IsUtf8Event (event_payloads es)
unfolding event_payloads
event_payloads-IsUtf8 [] = tt
event_payloads-IsUtf8 (e ∷ es) =
    (redact-IsUtf8Event e (event_payload e) (event_payload-IsUtf8Event e), event_payloads-IsUtf8 es)

texts-IsUtf8 : (ts : List Text) → All IsUtf8 (map utf8_safe_report_text ts)
texts-IsUtf8 [] = tt
texts-IsUtf8 (t ∷ ts) = (utf8_safe_report_text-utf8_encodable t, texts-IsUtf8 ts)

-- Every text of a serialized execution can be encoded in UTF-8, whatever lone surrogates the
-- execution holds: its status, the five texts of each event, and the command; the streams are left
-- out.
pub execution_payload-IsUtf8Payload : (r : ExecutionResult) → IsUtf8Payload (execution_payload r)
unfolding execution_payload
execution_payload-IsUtf8Payload r = record {
  status = outcome_value-IsUtf8 r.status;
  stdout = refl;
  stderr = refl;
  events = event_payloads-IsUtf8 r.events;
  command_preview = texts-IsUtf8 r.command_preview;
}
