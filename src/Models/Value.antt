-- ===== src/Models/Value.antt =====
-- An untrusted Python object, as the validators of src/r_sandbox take it apart by `type(x) is C`.
-- The constructors named after dataclasses are objects of exactly that class, whose fields may hold
-- anything. `other` stands for every object of another type, subclasses included.
use r_sandbox.Prelude.{ℕ, ◌≡◌, refl, ap, Option, none, some, List, [], ◌∷◌, map, Text}
use r_sandbox.Models.Enums.{
  CapabilityCategory, RiskLevel, Decision, AgentOutcome, RuntimeEvidenceSource,
}
use r_sandbox.Models.Records.{
  Number, Evidence, Finding, CapabilityRequest, PlanStep, ExecutionPlan, PolicyDecision,
  Authorization,
}

mutual
  pub data Value : Type 0 where
    nothing : Value
    num : Number → Value
    text : Text → Value
    tuple : Values → Value
    category : CapabilityCategory → Value
    risk : RiskLevel → Value
    decision : Decision → Value
    outcome : AgentOutcome → Value
    source : RuntimeEvidenceSource → Value
    evidence : (source detail line : Value) → Value
    capability_request :
        (request_id category action target justification confidence risk evidence : Value) → Value
    plan_step : (step_id purpose argv cwd capabilities : Value) → Value
    execution_plan : (goal summary steps assumptions attempt : Value) → Value
    policy_decision : (request decision reason : Value) → Value
    authorization : (decisions : Value) → Value
    runtime_event : (event_type action target allowed detail source : Value) → Value
    execution_result :
        (status exit_code stdout stderr duration_seconds events command_preview : Value) → Value
    finding : (finding_id category action target risk reason evidence : Value) → Value
    other : ℕ → Value

  pub data Values : Type 0 where
    nil : Values
    cons : Value → Values → Values

abbrev pub items : Values → List Value
items nil = []
items (cons v vs) = v ∷ items vs

abbrev pub values : List Value → Values
values [] = nil
values (v ∷ vs) = cons v (values vs)

pub values-items : (vs : Values) → values (items vs) ≡ vs
values-items nil = refl
values-items (cons v vs) = ap (cons v) (values-items vs)

pub items-values : (vs : List Value) → items (values vs) ≡ vs
items-values [] = refl
items-values (v ∷ vs) = ap (λ rest. v ∷ rest) (items-values vs)

-- The objects that hold the typed records.
abbrev pub line_value : Option Number → Value
line_value none = Value.nothing
line_value (some n) = Value.num n

abbrev pub evidence_value : Evidence → Value
evidence_value e = Value.evidence (Value.text e.source) (Value.text e.detail) (line_value e.line)

abbrev pub finding_value : Finding → Value
finding_value f =
    Value.finding (Value.text f.finding_id) (Value.category f.category) (Value.text f.action)
      (Value.text f.target) (Value.risk f.risk) (Value.text f.reason)
      (Value.tuple (values (map evidence_value f.evidence)))

abbrev pub request_value : CapabilityRequest → Value
request_value r =
    Value.capability_request (Value.text r.request_id) (Value.category r.category)
      (Value.text r.action) (Value.text r.target) (Value.text r.justification)
      (Value.num r.confidence) (Value.risk r.risk)
      (Value.tuple (values (map evidence_value r.evidence)))

abbrev pub step_value : PlanStep → Value
step_value s =
    Value.plan_step (Value.text s.step_id) (Value.text s.purpose)
      (Value.tuple (values (map Value.text s.argv))) (Value.text s.cwd)
      (Value.tuple (values (map request_value s.capabilities)))

abbrev pub plan_value : ExecutionPlan → Value
plan_value p =
    Value.execution_plan (Value.text p.goal) (Value.text p.summary)
      (Value.tuple (values (map step_value p.steps)))
      (Value.tuple (values (map Value.text p.assumptions))) (Value.num (Number.int p.attempt))

abbrev pub decision_value : PolicyDecision → Value
decision_value d =
    Value.policy_decision (request_value d.request) (Value.decision d.decision)
      (Value.text d.reason)

abbrev pub authorization_value : Authorization → Value
authorization_value a = Value.authorization (Value.tuple (values (map decision_value a.decisions)))
