-- ===== src/Policy/Engine.antt =====
-- src/r_sandbox/policy/engine.py: the choice of a handler, approvals, and `authorize`.
pub mod Grants
pub mod Mediation
pub mod Approvals
use r_sandbox.Prelude.{
  ℕ, ◌+◌, not, ◌&&◌, Option, none, some, List, [], ◌∷◌, ◌++◌, Text, lit, if◌then◌else◌, any, same,
  one_of, Result, ok, ◌>>=◌,
}
use r_sandbox.Python.{Python}
use r_sandbox.Models.Enums.{
  CapabilityCategory, filesystem, network, process, secret, device, resource, side_effect, allow,
  deny, is_require_approval,
}
use r_sandbox.Models.Records.{CapabilityRequest, PolicyDecision, Authorization}
use r_sandbox.Models.Value.{Value}
use r_sandbox.Policy.Checks.{valid_confidence}
use r_sandbox.Policy.Request.{quarantine_request}
use r_sandbox.Policy.Plan.{ValidatedRequest, ValidatedPlan, validate_execution_plan, has_error}
use r_sandbox.Policy.Identity.{capability_request_id}
use r_sandbox.Policy.Config.{PolicyConfig, normalized, numeric_config_error}
use r_sandbox.Policy.Handlers.{
  Answer, filesystem_answer, network_answer, process_answer, device_answer, resource_answer,
  side_effect_answer,
}

-- `_evaluate`, with `_secret`.
unfoldable pub evaluate_as : Python → PolicyConfig → CapabilityRequest → CapabilityCategory → Answer
unfolding filesystem_answer network_answer process_answer device_answer resource_answer
    side_effect_answer
evaluate_as P cfg r filesystem = filesystem_answer P r
evaluate_as P cfg r network = network_answer P cfg r
evaluate_as P cfg r process = process_answer P cfg r
evaluate_as P cfg r secret = (deny, lit "Host secrets are never passed to untrusted research code.")
evaluate_as P cfg r device = device_answer P r
evaluate_as P cfg r resource = resource_answer P cfg r
evaluate_as P cfg r side_effect = side_effect_answer P r

unfoldable pub evaluate : Python → PolicyConfig → CapabilityRequest → Answer
unfolding evaluate_as
evaluate P cfg r = evaluate_as P cfg r r.category

-- The decision on an approval that was asked for.
unfoldable pub with_approval : PolicyConfig → Text → Answer → Answer
with_approval cfg id a =
    if is_require_approval a.0 && one_of id cfg.approved_request_ids
    then (if cfg.approval_context_immutable
        then (
          allow,
          lit
              "Explicit approval supplied for this exact request id and immutable execution context.",
        )
        else (
          a.0,
          lit
              "Approval was not applied because the execution image is not bound to an immutable sha256 digest.",
        ))
    else a

unfoldable pub decided : CapabilityRequest → Answer → PolicyDecision
decided r a = record { request = r; decision = a.0; reason = a.1 }

identified : Python → PolicyConfig → CapabilityRequest → Text → PolicyDecision
unfolding decided evaluate with_approval
identified P cfg r expected =
    if not (same r.request_id expected)
    then decided r
        (deny, lit "Capability id is not bound to this repository, goal, and canonical payload.")
    else decided r (with_approval cfg r.request_id (evaluate P cfg r))

-- The decision on one request that was not seen before.
unfoldable pub decide :
    Python → PolicyConfig → Text → Option Text → CapabilityRequest → Result PolicyDecision
unfolding decided identified
decide P cfg goal (some e) r = ok (decided r (deny, e))
decide P cfg goal none r =
    if not (valid_confidence r.confidence)
    then ok (decided r (deny, lit "Capability confidence must be a finite number between 0 and 1."))
    else do
      expected ←
          capability_request_id P cfg.repository goal r cfg.repository_digest
            cfg.authorization_context
      ok (identified P cfg r expected)

-- The loop of `authorize`; `seen` is its set of ids.
unfoldable pub decide_all :
    Python
    → PolicyConfig
    → Text
    → Option Text
    → List Text
    → List ValidatedRequest
    → Result (List PolicyDecision)
unfolding decide
decide_all P cfg goal e seen [] = ok []
decide_all P cfg goal e seen (v ∷ vs) =
    let skipped = decide_all P cfg goal e seen vs in
    let taken = decide P cfg goal e v.request >>= λ d.
    decide_all P cfg goal e (v.request.request_id ∷ seen) vs >>= λ ds. ok (d ∷ ds) in
    if one_of v.request.request_id seen then skipped else taken

unfoldable pub aborted_reason : Text
aborted_reason =
    lit "Authorization aborted because the plan contains a malformed capability proposal."

unfoldable pub quarantined : Python → ℕ → ValidatedRequest → PolicyDecision
unfolding decided aborted_reason
quarantined P index v = elim v.error [
  | none ↦ decided v.request (deny, aborted_reason)
  | some e ↦
      decided (quarantine_request P v.request e index)
        (deny, lit "Malformed capability proposal: " ++ e ++ lit ".")
]

unfoldable pub quarantine_all : Python → ℕ → List ValidatedRequest → List PolicyDecision
unfolding quarantined
quarantine_all P index [] = []
quarantine_all P index (v ∷ vs) = quarantined P index v ∷ quarantine_all P (index + 1) vs

-- `authorize` behind the validation of the plan.
unfoldable pub authorize_plan : Python → PolicyConfig → ValidatedPlan → Result Authorization
unfolding quarantine_all decide_all numeric_config_error normalized
authorize_plan P config v =
    if any has_error v.requests
    then ok (record { decisions = quarantine_all P 0 v.requests })
    else do
      cfg ← normalized P config
      ds ← decide_all P cfg v.plan.goal (numeric_config_error cfg) [] v.requests
      ok (record { decisions = ds })

-- `PolicyEngine.authorize`
unfoldable pub authorize : Python → Value → PolicyConfig → Result Authorization
unfolding authorize_plan
authorize P plan config = do v ← validate_execution_plan P plan; authorize_plan P config v
