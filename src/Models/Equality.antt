-- ===== src/Models/Equality.antt =====
-- src/r_sandbox/models.py: `==` of the dataclasses, which compares the fields in their order.
pub mod Laws
use r_sandbox.Prelude.{Bool, true, false, ◌&&◌, Option, none, some, List, [], ◌∷◌, same, same_texts}
use r_sandbox.Prelude.Int.{ℤ, eqb_ℤ}
use r_sandbox.Prelude.Float.{Float, le_float, zero_float, one_float, exact}
use r_sandbox.Models.Enums.{category_value, risk_value, outcome_value, source_text}
use r_sandbox.Models.Records.{
  Number, bool, int, float, Evidence, CapabilityRequest, RuntimeEvent, ExecutionResult,
}

-- `a == b` on numbers: exact, whatever their classes.
unfoldable pub as_exact : Number → Float
as_exact (bool false) = zero_float
as_exact (bool true) = one_float
as_exact (int n) = exact n
as_exact (float f) = f

unfoldable pub same_number : Number → Number → Bool
unfolding as_exact
same_number a b = le_float (as_exact a) (as_exact b) && le_float (as_exact b) (as_exact a)

same_line : Option Number → Option Number → Bool
unfolding same_number
same_line none none = true
same_line (some a) (some b) = same_number a b
same_line _ _ = false

same_evidence : List Evidence → List Evidence → Bool
unfolding same_line
same_evidence [] [] = true
same_evidence (a ∷ more) (b ∷ bs) =
    same a.source b.source
    && (same a.detail b.detail && (same_line a.line b.line && same_evidence more bs))
same_evidence _ _ = false

-- `==` of `CapabilityRequest`; the texts of the members tell the members of an enum apart.
unfoldable pub same_request : CapabilityRequest → CapabilityRequest → Bool
unfolding same_number same_evidence
same_request a b =
    same a.request_id b.request_id
    && (same (category_value a.category) (category_value b.category)
        && (same a.action b.action
            && (same a.target b.target
                && (same a.justification b.justification
                    && (same_number a.confidence b.confidence
                        && (same (risk_value a.risk) (risk_value b.risk)
                            && same_evidence a.evidence b.evidence))))))

unfoldable pub same_flag : Bool → Bool → Bool
same_flag true b = b
same_flag false true = false
same_flag false false = true

unfoldable pub same_exit : Option ℤ → Option ℤ → Bool
same_exit none none = true
same_exit (some a) (some b) = eqb_ℤ a b
same_exit _ _ = false

unfoldable pub same_events : List RuntimeEvent → List RuntimeEvent → Bool
unfolding same_flag
same_events [] [] = true
same_events (a ∷ more) (b ∷ bs) =
    same a.event_type b.event_type
    && (same a.action b.action
        && (same a.target b.target
            && (same_flag a.allowed b.allowed
                && (same a.detail b.detail
                    && (same (source_text a.source) (source_text b.source)
                        && same_events more bs)))))
same_events _ _ = false

-- `==` of `ExecutionResult`
unfoldable pub same_result : ExecutionResult → ExecutionResult → Bool
unfolding same_exit same_number same_events
same_result a b =
    same (outcome_value a.status) (outcome_value b.status)
    && (same_exit a.exit_code b.exit_code
        && (same a.stdout b.stdout
            && (same a.stderr b.stderr
                && (same_number a.duration_seconds b.duration_seconds
                    && (same_events a.events b.events
                        && same_texts a.command_preview b.command_preview)))))
