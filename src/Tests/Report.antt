-- ===== src/Tests/Report.antt =====
-- Reports, payloads and manifests at concrete inputs.
use r_sandbox.Prelude.{
  ◌≡◌, refl, inr, false, not, none, some, List, [], ◌∷◌, Text, lit, ok, one_of, sort_texts, unique,
  same_texts,
}
use r_sandbox.Prelude.Int.{pos}
use r_sandbox.Models.Enums.{succeeded, target_telemetry, inconclusive, source_text}
use r_sandbox.Models.Records.{int, RuntimeEvent, ExecutionResult}
use r_sandbox.Models.Report.{AgentReport, new_report}
use r_sandbox.Models.Payload.{utf8_safe_report_text, stream_summary, execution_payload}
use r_sandbox.Models.Payload.Laws.{execution_payload-SameVisible}
use r_sandbox.Models.Payload.Encodable.{IsUtf8Payload, execution_payload-IsUtf8Payload}
use r_sandbox.Models.Gate.{canonical_agent_report}
use r_sandbox.Models.Gate.Laws.{IsGated, canonical_agent_report-IsGated}
use r_sandbox.Observe.Manifest.{OutputEntry, changed, entry_at, later_or, compare_entries}
use r_sandbox.Observe.Manifest.Laws.{same_state, compare_entries-changed}
use r_sandbox.Tests.Data.{policy_run}

abbrev file : Text → OutputEntry
file path = record {
  path = path;
  kind = lit "file";
  size = pos 3;
  modified_ns = pos 7;
  sha256 = none;
}

abbrev old_files : List OutputEntry
old_files = file (lit "a.txt") ∷ file (lit "b.txt") ∷ []

abbrev new_files : List OutputEntry
new_files = record (file (lit "b.txt")) { size = pos 4 } ∷ file (lit "c.txt") ∷ []

compares :
    changed (compare_entries old_files new_files) ≡ lit "c.txt" ∷ lit "b.txt" ∷ lit "a.txt" ∷ []
unfolding policy_run changed compare_entries entry_at later_or sort_texts unique
compares = refl

compare_entries-changed_example :
    one_of (lit "b.txt") (changed (compare_entries old_files new_files))
    ≡ not (same_state (entry_at (lit "b.txt") old_files) (entry_at (lit "b.txt") new_files))
compare_entries-changed_example = compare_entries-changed old_files new_files (lit "b.txt")

-- A text with a lone surrogate.
abbrev broken : Text
broken = b'a' ∷ 0xD800 ∷ []

escapes : utf8_safe_report_text broken ≡ lit "a\\ud800"
unfolding policy_run utf8_safe_report_text
escapes = refl

abbrev secret_event : Text → RuntimeEvent
secret_event target = record {
  event_type = lit "secret";
  action = lit "read";
  target = target;
  allowed = false;
  detail = target;
  source = target_telemetry;
}

abbrev quiet_result : ExecutionResult
quiet_result = record {
  status = succeeded;
  exit_code = some (pos 0);
  stdout = lit "abc";
  stderr = [];
  duration_seconds = int (pos 1);
  events = secret_event (lit "/root/.ssh") ∷ [];
  command_preview = [];
}

execution_payload-SameVisible_example :
    execution_payload quiet_result
    ≡ execution_payload (record quiet_result {
      stdout = lit "xyz";
      stderr = [];
      events = secret_event (lit "/etc") ∷ [];
    })
unfolding policy_run stream_summary
execution_payload-SameVisible_example =
    execution_payload-SameVisible quiet_result (lit "xyz") [] (secret_event (lit "/etc") ∷ []) refl
      refl (inr (refl, refl), tt)

-- The target reports a text with a lone surrogate.
abbrev broken_result : ExecutionResult
broken_result = record quiet_result {
  events = secret_event broken ∷ [];
  command_preview = broken ∷ [];
}

execution_payload-IsUtf8Payload_example : IsUtf8Payload (execution_payload broken_result)
execution_payload-IsUtf8Payload_example = execution_payload-IsUtf8Payload broken_result

abbrev reported : AgentReport
reported = record (new_report succeeded (lit "train") (lit "/repo")) {
  execution = some quiet_result;
  execution_history = quiet_result ∷ [];
  security_assessment = some (record {
    verdict = inconclusive;
    risk_score = 20;
    summary = lit "no evidence";
    reasons = [];
    static_findings = [];
    runtime_events = [];
  });
}

reports : canonical_agent_report reported ≡ ok reported
unfolding policy_run canonical_agent_report new_report source_text same_texts
reports = refl

canonical_agent_report-IsGated_example : IsGated reported
canonical_agent_report-IsGated_example = canonical_agent_report-IsGated reported reported reports
