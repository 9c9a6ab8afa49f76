-- ===== src/Tests/Policy.antt =====
-- The policy at concrete plans.
use r_sandbox.Prelude.{◌≡◌, refl, none, some, [], ◌∷◌, map, Text, ok, lit, length, All}
use r_sandbox.Prelude.Int.{pos}
use r_sandbox.Models.Enums.{allow, require_approval}
use r_sandbox.Models.Records.{int, Authorization, CapabilityRequest}
use r_sandbox.Models.Value.{plan_value}
use r_sandbox.Policy.Plan.{ValidatedPlan, validate_execution_plan, validated}
use r_sandbox.Policy.Plan.Contract.{IsWellFormed}
use r_sandbox.Policy.Plan.Sound.{IsSnapshot, validate-IsSnapshot}
use r_sandbox.Policy.Plan.Complete.{validate-plan_value}
use r_sandbox.Policy.Config.{PolicyConfig, normalized}
use r_sandbox.Policy.Engine.{authorize}
use r_sandbox.Policy.Engine.Grants.{IsGranted, IsDenied, malformed-IsDenied, authorize-IsGranted}
use r_sandbox.Policy.Engine.Mediation.{authorize-request}
use r_sandbox.Policy.Engine.Approvals.{approving, SameDenials, authorize-SameDenials}
use r_sandbox.Policy.Confinement.{authorize-InContract}
use r_sandbox.Policy.Confinement.Contract.{InContract}
use r_sandbox.Tests.Data.{policy_run, host, digest_id, download, one_step, config}

abbrev good_plan : ValidatedPlan
good_plan = record {
  plan = one_step download;
  requests = record { request = download; error = none } ∷ [];
}

validates : validate_execution_plan host (plan_value (one_step download)) ≡ ok good_plan
unfolding policy_run
validates = refl

validate-IsSnapshot_example : IsSnapshot host (plan_value (one_step download)) good_plan
validate-IsSnapshot_example =
    validate-IsSnapshot host (plan_value (one_step download)) good_plan validates

well_formed : IsWellFormed (one_step download)
well_formed = (validate-IsSnapshot host (plan_value (one_step download)) good_plan validates).formed

validate-plan_value_example :
    validate_execution_plan host (plan_value (one_step download))
    ≡ ok (record { plan = one_step download; requests = map (validated host) (download ∷ []) })
validate-plan_value_example = validate-plan_value host (one_step download) well_formed

-- A confidence above 1 is a malformed value in a well-shaped plan.
abbrev wild : CapabilityRequest
wild = record download { confidence = int (pos 2) }

abbrev wild_error : Text
wild_error = lit "confidence must be a finite non-boolean number between 0 and 1"

abbrev wild_plan : ValidatedPlan
wild_plan = record {
  plan = one_step wild;
  requests = record { request = wild; error = some wild_error } ∷ [];
}

validates_wild : validate_execution_plan host (plan_value (one_step wild)) ≡ ok wild_plan
unfolding policy_run
validates_wild = refl

malformed-IsDenied_example :
    (a : Authorization) × (authorize host (plan_value (one_step wild)) config ≡ ok a)
    × All IsDenied a.decisions
    × (length a.decisions ≡ length wild_plan.requests)
malformed-IsDenied_example =
    malformed-IsDenied host (plan_value (one_step wild)) config wild_plan validates_wild refl

abbrev approval : Text
approval =
    lit "Explicit approval supplied for this exact request id and immutable execution context."

abbrev approved : Authorization
approved = record {
  decisions = record { request = download; decision = allow; reason = approval } ∷ [];
}

authorizes : authorize host (plan_value (one_step download)) config ≡ ok approved
unfolding policy_run
authorizes = refl

authorize-IsGranted_example :
    (cfg : PolicyConfig) × (normalized host config ≡ ok cfg)
    × All
        (λ d. d.decision ≡ allow → IsGranted host cfg good_plan.plan.goal d.request)
        approved.decisions
authorize-IsGranted_example =
    authorize-IsGranted host (plan_value (one_step download)) config good_plan approved validates
      refl authorizes

authorize-InContract_example :
    (cfg : PolicyConfig) × (normalized host config ≡ ok cfg)
    × All
        (λ d. d.decision ≡ allow → InContract host cfg d.request d.request.category)
        approved.decisions
authorize-InContract_example =
    authorize-InContract host (plan_value (one_step download)) config good_plan approved validates
      refl authorizes

authorize-request_example : map (λ d. d.request) approved.decisions ≡ download ∷ []
authorize-request_example =
    authorize-request host (plan_value (one_step download)) config good_plan approved validates refl
      authorizes

abbrev held_reason : Text
held_reason = lit "Network is off by default; approve this exact endpoint to continue."

abbrev held : Authorization
held = record {
  decisions = record { request = download; decision = require_approval; reason = held_reason } ∷ [];
}

holds : authorize host (plan_value (one_step download)) (approving [] config) ≡ ok held
unfolding policy_run
holds = refl

authorize-SameDenials_example : SameDenials approved.decisions held.decisions
authorize-SameDenials_example =
    authorize-SameDenials host (plan_value (one_step download)) config (digest_id ∷ []) [] good_plan
      approved held validates refl authorizes holds
