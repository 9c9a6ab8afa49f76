-- ===== src/Assess/Signals.antt =====
-- src/r_sandbox/agent/security_assessor.py: the facts that `assess` gathers before it decides.
use r_sandbox.Prelude.{
  ℕ, ◌+◌, Bool, true, false, not, ◌&&◌, Option, none, some, List, [], ◌∷◌, ◌++◌, map, Text, lit,
  length, is_empty, any, filter, same, one_of,
}
use r_sandbox.Python.{Python}
use r_sandbox.Models.Enums.{
  RiskLevel, low, medium, high, critical, is_high, is_critical, is_network, is_secret, is_allow,
  is_deny, is_require_approval, is_runtime_unavailable, is_succeeded, is_target_telemetry,
}
use r_sandbox.Models.Records.{
  Finding, CapabilityRequest, PolicyDecision, Authorization, RuntimeEvent, ExecutionResult,
}
use r_sandbox.Models.Canonical.{is_zero_exit}
use r_sandbox.Assess.Events.{
  Grants, network_endpoint, is_dangerous, event_is_authorized, is_trusted,
}

-- `_WEIGHTS`
abbrev pub weight : RiskLevel → ℕ
weight low = 0
weight medium = 5
weight high = 20
weight critical = 45

unfoldable pub total_weight : List Finding → ℕ
total_weight [] = 0
total_weight (f ∷ fs) = weight f.risk + total_weight fs

unfoldable pub any_critical : List Finding → Bool
any_critical = any (λ f. is_critical f.risk)

unfoldable pub any_high : List Finding → Bool
any_high = any (λ f. is_high f.risk)

abbrev pub events_of : Option ExecutionResult → List RuntimeEvent
events_of none = []
events_of (some r) = r.events

unfoldable pub behavior_types : List Text
behavior_types =
    lit "filesystem"
    ∷ lit "network"
    ∷ lit "process"
    ∷ lit "secret"
    ∷ lit "device"
    ∷ lit "side_effect"
    ∷ lit "resource"
    ∷ []

-- `blocked_runtime`
unfoldable pub is_blocked : Python → RuntimeEvent → Bool
is_blocked P e = not e.allowed && one_of (P.lower e.event_type) behavior_types

is_download : Python → CapabilityRequest → Bool
is_download P r = is_network r.category && same (P.lower r.action) (lit "download")

-- The endpoints of the downloads under one decision, without the empty one.
download_hosts : Python → (PolicyDecision → Bool) → Authorization → List Text
unfolding is_download
download_hosts P chosen a =
    filter (λ t. not (is_empty t))
      (map (λ d. network_endpoint P d.request.target)
        (filter (λ d. chosen d && is_download P d.request) a.decisions))

abbrev grave : RiskLevel → Bool
grave high = true
grave critical = true
grave _ = false

unfoldable pub grants_of : Python → Authorization → Grants
unfolding download_hosts
grants_of P a = record {
  expected_hosts =
      download_hosts P (λ d. is_require_approval d.decision) a
      ++ download_hosts P (λ d. is_allow d.decision) a;
  sensitive_access =
      any (λ d. is_deny d.decision && (is_secret d.request.category && grave d.request.risk))
        a.decisions;
  allowed = map (λ d. d.request) (filter (λ d. is_allow d.decision) a.decisions);
}

-- An allowed event outside the contract, and a dangerous one without a grant.
unfoldable pub is_violation : Python → Grants → RuntimeEvent → Bool
is_violation P g e = e.allowed && not (event_is_authorized P g e)

unfoldable pub is_threat : Python → Grants → RuntimeEvent → Bool
is_threat P g e = is_dangerous P g e && not (event_is_authorized P g e)

pub record Signals : Type 0 where
  pub executed : Bool
  pub completed : Bool
  pub unavailable : Bool
  pub critical : Bool
  pub high : Bool
  pub weights : ℕ
  pub blocked : ℕ
  pub denied : ℕ
  pub violations : ℕ
  pub trusted_danger : Bool
  pub target_danger : Bool
  pub target_violation : Bool
  pub generic_violation : Bool
  pub resource_breach : Bool
  pub incomplete_observation : Bool
  pub attestation_claimed : Bool
  pub warnings : ℕ

abbrev pub is_completed : Option ExecutionResult → Bool
is_completed none = false
is_completed (some r) = is_succeeded r.status && is_zero_exit r.exit_code

abbrev pub is_unavailable : Option ExecutionResult → Bool
is_unavailable none = false
is_unavailable (some r) = is_runtime_unavailable r.status

abbrev pub is_executed : Option ExecutionResult → Bool
is_executed none = false
is_executed (some r) = true

unfoldable pub is_observer : Python → RuntimeEvent → Bool
is_observer P e = same (P.lower e.event_type) (lit "observer")

unfoldable pub gather :
    Python → List Finding → Authorization → Option ExecutionResult → List Text → Signals
unfolding any_critical any_high is_blocked grants_of is_violation is_threat total_weight is_observer
gather P findings a execution warnings =
    let events = events_of execution in
    let g = grants_of P a in
    record {
      executed = is_executed execution;
      completed = is_completed execution;
      unavailable = is_unavailable execution;
      critical = any_critical findings;
      high = any_high findings;
      weights = total_weight findings;
      blocked = length (filter (is_blocked P) events);
      denied = length (filter (λ d. is_deny d.decision) a.decisions);
      violations = length (filter (is_violation P g) events);
      trusted_danger = any (λ e. is_threat P g e && is_trusted e.source) events;
      target_danger = any (λ e. is_threat P g e && is_target_telemetry e.source) events;
      target_violation = any (λ e. is_target_telemetry e.source) (filter (is_violation P g) events);
      generic_violation =
          any (λ e. is_trusted e.source && not (is_dangerous P g e))
            (filter (is_violation P g) events);
      resource_breach =
          any
            (λ e.
              same (P.lower e.event_type) (lit "resource") && same (P.lower e.action) (lit "limit"))
            (filter (is_blocked P) events);
      incomplete_observation = any (is_observer P) events;
      attestation_claimed =
          any (λ e. is_observer P e && same e.action (lit "coverage_attestation")) events;
      warnings = length warnings;
    }
