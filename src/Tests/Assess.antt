-- ===== src/Tests/Assess.antt =====
-- The assessor at concrete runs.
use r_sandbox.Prelude.{
  ◌≤◌, ◌≡◌, refl, ◌≢◌, ◌⊎◌, ◌↔◌, true, false, ◌&&◌, none, some, err, value_error, List, [], ◌∷◌, ok,
  lit, any, filter, All,
}
use r_sandbox.Prelude.Int.{pos}
use r_sandbox.Models.Enums.{
  deny, secret, low, safe, review, unsafe, inconclusive, failed, succeeded, target_telemetry,
  supervisor, is_target_telemetry, filesystem,
}
use r_sandbox.Models.Records.{
  int, Finding, Authorization, RuntimeEvent, ExecutionResult, SecurityAssessment,
}
use r_sandbox.Models.Value.{Value, values, authorization_value}
use r_sandbox.Models.Canonical.{canonical_execution_result}
use r_sandbox.Models.Canonical.Snapshot.{
  result_value, IsConsistent, canonical_execution_result-IsConsistent,
}
use r_sandbox.Models.Findings.{canonical_findings}
use r_sandbox.Policy.Plan.{canonical_authorization}
use r_sandbox.Assess.Events.{is_trusted, is_dangerous, event_is_authorized}
use r_sandbox.Assess.Signals.{behavior_types, grants_of, is_threat, is_violation}
use r_sandbox.Assess.Assessor.{assess, assess_canonical}
use r_sandbox.Assess.Verdicts.{
  assess-ne-safe, unsafe_iff, trusted_events, unsafe-trusted_events, IsMinor, inconclusive-IsMinor,
  denied_verdict,
}
use r_sandbox.Tests.Data.{policy_run, host, download}

assess_run : Unit {0}
unfolding policy_run assess is_dangerous event_is_authorized behavior_types
    canonical_execution_result canonical_findings
assess_run = tt

-- A read of a credential file that the target or the supervisor reports.
abbrev target_event : RuntimeEvent
target_event = record {
  event_type = lit "secret";
  action = lit "read";
  target = lit "/root/.ssh/id_rsa";
  allowed = false;
  detail = [];
  source = target_telemetry;
}

abbrev supervisor_event : RuntimeEvent
supervisor_event = record target_event { source = supervisor }

abbrev run_with : List RuntimeEvent → ExecutionResult
run_with es = record {
  status = failed;
  exit_code = some (pos 1);
  stdout = [];
  stderr = [];
  duration_seconds = int (pos 1);
  events = es;
  command_preview = [];
}

abbrev nothing_granted : Authorization
nothing_granted = record { decisions = [] }

abbrev refused : Authorization
refused = record {
  decisions =
      record {
        request = record download { category = secret };
        decision = deny;
        reason = lit "Host secrets are never passed to untrusted research code.";
      }
      ∷ [];
}

abbrev minor : Finding
minor = record {
  finding_id = lit "f1";
  category = filesystem;
  action = lit "read";
  target = lit "data.csv";
  risk = low;
  reason = lit "reads a file";
  evidence = [];
}

denied_value : canonical_authorization host (authorization_value refused) ≡ ok refused
unfolding policy_run
denied_value = refl

abbrev static_only : SecurityAssessment
static_only = assess_canonical host [] refused none []

assesses :
    assess host (Value.tuple (values [])) (authorization_value refused) none [] ≡ ok static_only
unfolding assess_run
assesses = refl

assess-ne-safe_example : (static_only.verdict ≢ safe) × (static_only.risk_score ≤ 100)
assess-ne-safe_example =
    assess-ne-safe host (Value.tuple (values [])) (authorization_value refused) none [] static_only
      assesses

unsafe_iff_example :
    ((assess_canonical host [] nothing_granted (some (run_with (supervisor_event ∷ []))) []).verdict
      ≡ unsafe)
    ↔ (any
          (is_threat host (grants_of host nothing_granted))
          (trusted_events (some (run_with (supervisor_event ∷ []))))
        ≡ true)
unsafe_iff_example = unsafe_iff host [] nothing_granted (some (run_with (supervisor_event ∷ []))) []

supervised_is_unsafe :
    (assess_canonical host [] nothing_granted (some (run_with (supervisor_event ∷ []))) []).verdict
    ≡ unsafe
unfolding assess_run
supervised_is_unsafe = refl

reported_is_review :
    (assess_canonical host [] nothing_granted (some (run_with (target_event ∷ []))) []).verdict
    ≡ review
unfolding assess_run
reported_is_review = refl

unsafe-trusted_events_example :
    ((assess_canonical host [] nothing_granted (some (run_with (target_event ∷ []))) []).verdict
      ≡ unsafe)
    ↔ ((assess_canonical host [] nothing_granted (some (run_with [])) []).verdict ≡ unsafe)
unsafe-trusted_events_example =
    unsafe-trusted_events host [] nothing_granted (some (run_with (target_event ∷ [])))
      (some (run_with [])) [] refl

quiet_is_inconclusive :
    (assess_canonical host (minor ∷ []) nothing_granted (some (run_with [])) []).verdict
    ≡ inconclusive
unfolding assess_run
quiet_is_inconclusive = refl

inconclusive-IsMinor_example :
    All IsMinor (minor ∷ [])
    × (any (λ x. is_threat host (grants_of host nothing_granted) x && is_trusted x.source) []
        ≡ false)
    × (any
          (λ x. is_threat host (grants_of host nothing_granted) x && is_target_telemetry x.source)
          []
        ≡ false)
    × (filter (is_violation host (grants_of host nothing_granted)) [] ≡ [])
inconclusive-IsMinor_example =
    inconclusive-IsMinor host (minor ∷ []) nothing_granted (some (run_with [])) []
      quiet_is_inconclusive

denied_verdict_example :
    ((assess_canonical host [] refused (some (run_with [])) []).verdict ≡ review)
    ⊎ ((assess_canonical host [] refused (some (run_with [])) []).verdict ≡ unsafe)
denied_verdict_example = denied_verdict host [] refused (some (run_with [])) [] refl refl

supervised :
    canonical_execution_result (result_value (run_with (supervisor_event ∷ [])))
    ≡ ok (run_with (supervisor_event ∷ []))
unfolding assess_run
supervised = refl

canonical_execution_result-IsConsistent_example :
    (result_value (run_with (supervisor_event ∷ []))
      ≡ result_value (run_with (supervisor_event ∷ [])))
    × IsConsistent (run_with (supervisor_event ∷ []))
canonical_execution_result-IsConsistent_example =
    canonical_execution_result-IsConsistent (result_value (run_with (supervisor_event ∷ [])))
      (run_with (supervisor_event ∷ [])) supervised

-- A success with a failing exit code does not pass.
inconsistent :
    canonical_execution_result (result_value (record (run_with []) { status = succeeded }))
    ≡ err (value_error (lit "a succeeded execution must have exit_code 0"))
unfolding assess_run
inconsistent = refl
