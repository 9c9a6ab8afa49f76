-- ===== src/Models/Payload.antt =====
-- src/r_sandbox/models.py: the copy of a report that is serialized, and what its serialization omits.
pub mod Laws
pub mod Encodable
use r_sandbox.Prelude.{
  ℕ, ◌+◌, ◌/◌, ◌%◌, Bool, true, false, not, ◌&&◌, ◌||◌, Option, none, some, List, [], ◌∷◌, ◌++◌,
  map, Text, lit, ltb, if◌then◌else◌, length, is_empty, any, one_of, has_char, is_surrogate, Raised,
  value_error, type_error, Result, ok, err, ◌>>=◌, ◌>>◌, raise_if,
}
use r_sandbox.Prelude.Int.{ℤ}
use r_sandbox.Models.Enums.{
  AgentOutcome, succeeded, failed, runtime_unavailable, RuntimeEvidenceSource, target_telemetry,
  supervisor, independent_observer, is_target_telemetry, source_text, SecurityVerdict, safe,
  inconclusive, is_safe, outcome_value,
}
use r_sandbox.Models.Records.{Number, RuntimeEvent, ExecutionResult, SecurityAssessment}
use r_sandbox.Models.Report.{AgentReport}
use r_sandbox.Models.Canonical.{canonical_execution_result}
use r_sandbox.Models.Canonical.Snapshot.{result_value}
use r_sandbox.Policy.Identity.{unicode_escape}

-- `_utf8_safe_report_text`
unfoldable pub utf8_safe_report_text : Text → Text
unfolding is_surrogate unicode_escape
utf8_safe_report_text [] = []
utf8_safe_report_text (c ∷ t) =
    let rest = utf8_safe_report_text t in
    if is_surrogate c then unicode_escape c ++ rest else c ∷ rest

-- The bytes of a character in UTF-8; a lone surrogate is replaced by "?".
utf8_width : ℕ → ℕ
unfolding is_surrogate
utf8_width c =
    if ltb c 128
    then 1
    else if ltb c 2048
    then 2
    else if is_surrogate c
    then 1
    else if ltb c 65536
    then 3
    else 4

unfoldable pub utf8_length : Text → ℕ
unfolding utf8_width
utf8_length [] = 0
utf8_length (c ∷ t) = utf8_width c + utf8_length t

pub record StreamSummary : Type 0 where
  pub characters : ℕ
  pub bytes : ℕ
  pub present : Bool

-- `_stream_summary`
unfoldable pub stream_summary : Text → StreamSummary
unfolding utf8_length
stream_summary t = record {
  characters = length t;
  bytes = utf8_length t;
  present = not (is_empty t);
}

pub record EventPayload : Type 0 where
  pub event_type : Text
  pub action : Text
  pub target : Text
  pub allowed : Bool
  pub detail : Text
  pub source : Text

-- `_json_value(asdict(event))`
unfoldable pub event_payload : RuntimeEvent → EventPayload
unfolding utf8_safe_report_text source_text
event_payload e = record {
  event_type = utf8_safe_report_text e.event_type;
  action = utf8_safe_report_text e.action;
  target = utf8_safe_report_text e.target;
  allowed = e.allowed;
  detail = utf8_safe_report_text e.detail;
  source = source_text e.source;
}

unfoldable pub target_event_types : List Text
target_event_types =
    lit "filesystem"
    ∷ lit "network"
    ∷ lit "process"
    ∷ lit "secret"
    ∷ lit "device"
    ∷ lit "runtime"
    ∷ []

unfoldable pub target_event_actions : List Text
target_event_actions =
    lit "read"
    ∷ lit "write"
    ∷ lit "mutate"
    ∷ lit "rename"
    ∷ lit "spawn"
    ∷ lit "connect"
    ∷ lit "connect_unknown"
    ∷ lit "download"
    ∷ lit "send"
    ∷ lit "audit_hook"
    ∷ []

-- One round of `_redact_target_event_payloads`.
unfoldable pub redact : RuntimeEvent → EventPayload → EventPayload
unfolding target_event_types target_event_actions
redact e p =
    if is_target_telemetry e.source
    then record p {
      event_type =
          if one_of e.event_type target_event_types
          then e.event_type
          else lit "unrecognized_target_event";
      action =
          if one_of e.action target_event_actions
          then e.action
          else lit "unrecognized_target_action";
      target = lit "<target-controlled-content-omitted>";
      detail = lit "Target-controlled content omitted from report.";
    }
    else p

-- The events of a serialized report.
unfoldable pub event_payloads : List RuntimeEvent → List EventPayload
unfolding redact event_payload
event_payloads [] = []
event_payloads (e ∷ es) = redact e (event_payload e) ∷ event_payloads es

pub record ExecutionPayload : Type 0 where
  pub status : Text
  pub exit_code : Option ℤ
  pub stdout : Option Text
  pub stderr : Option Text
  pub stdout_summary : StreamSummary
  pub stderr_summary : StreamSummary
  pub duration_seconds : Number
  pub events : List EventPayload
  pub command_preview : List Text

-- `_json_value` and then `_sanitize_execution_payload`.
unfoldable pub execution_payload : ExecutionResult → ExecutionPayload
unfolding stream_summary event_payloads utf8_safe_report_text
execution_payload r = record {
  status = outcome_value r.status;
  exit_code = r.exit_code;
  stdout = none;
  stderr = none;
  stdout_summary = stream_summary r.stdout;
  stderr_summary = stream_summary r.stderr;
  duration_seconds = r.duration_seconds;
  events = event_payloads r.events;
  command_preview = map utf8_safe_report_text r.command_preview;
}
