-- ===== src/Policy/Confinement/Handlers.antt =====
-- src/r_sandbox/policy/engine.py: what the answers of `_process`, `_device`, `_resource` and
-- `_side_effect` rest on.
use r_sandbox.Prelude.{
  ◌≡◌, refl, inl, inr, ◌≢◌, true, false, Option, none, some, [], ◌∷◌, arith, Text, lit, same→eq,
  one_of, Option-cases,
}
use r_sandbox.Prelude.Float.{Float, is_finite, le_float, lt_float, zero_float}
use r_sandbox.Python.{Python}
use r_sandbox.Models.Enums.{process, allow, deny, require_approval}
use r_sandbox.Models.Records.{CapabilityRequest}
use r_sandbox.Policy.Config.{PolicyConfig}
use r_sandbox.Policy.Handlers.{
  below_threshold, process_answer, device_answer, maximum_of, amount_answer, side_effect_answer,
}
use r_sandbox.Policy.Confinement.Contract.{InContract}

pub process_answer-allow :
    (P : Python) (cfg : PolicyConfig) (r : CapabilityRequest)
    → (process_answer P cfg r).0 ≡ allow
    → InContract P cfg r process
unfolding process_answer
process_answer-allow P cfg r h =
    (ground (arith, same→eq (P.lower r.action) (lit "execute")), ground arith, ground arith)

pub amount_answer-allow :
    (cfg : PolicyConfig) (action : Text) (v : Option Float)
    → (amount_answer cfg action v).0 ≡ allow
    → (value maximum : Float) × (v ≡ some value)
      × (is_finite value ≡ true)
      × (le_float value zero_float ≡ false)
      × (maximum_of cfg action ≡ some maximum)
      × (lt_float maximum value ≡ false)
unfolding amount_answer
amount_answer-allow cfg action none h = cc
amount_answer-allow cfg action (some value) h = elim (Option-cases (maximum_of cfg action)) [
  | inl unknown ↦ absurd (ground arith)
  | inr (maximum, known) ↦ (value, maximum, refl, ground arith, ground arith, known, ground arith)
]

pub device_answer-ne-deny :
    (P : Python) (r : CapabilityRequest)
    → (device_answer P r).0 ≢ deny
    → (P.lower r.action ≡ lit "access")
      × (one_of (P.lower r.target) (lit "gpu" ∷ lit "cuda" ∷ []) ≡ true)
      × (below_threshold r.confidence ≡ false)
      × ((device_answer P r).0 ≢ allow)
unfolding device_answer
device_answer-ne-deny P r h = (
  ground (arith, same→eq (P.lower r.action) (lit "access")),
  ground arith,
  ground arith,
  λ a. ground arith,
)

pub process-decides :
    (P : Python) (cfg : PolicyConfig) (r : CapabilityRequest)
    → (process_answer P cfg r).0 ≢ require_approval
unfolding process_answer
process-decides P cfg r h = ground arith

pub amount-decides :
    (cfg : PolicyConfig) (action : Text) (v : Option Float)
    → (amount_answer cfg action v).0 ≢ require_approval
unfolding amount_answer
amount-decides cfg action none h = cc
amount-decides cfg action (some value) h = ground arith

pub side_effect-denies : (P : Python) (r : CapabilityRequest) → (side_effect_answer P r).0 ≡ deny
unfolding side_effect_answer
side_effect-denies P r = ground arith
