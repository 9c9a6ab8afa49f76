-- ===== src/Agent/Orchestrator/Parts.antt =====
-- src/r_sandbox/agent/orchestrator.py: the static methods.
use r_sandbox.Prelude.{
  ℕ, Bool, true, false, not, ◌&&◌, ◌||◌, Option, none, some, List, [], ◌∷◌, ◌++◌, Text, lit, ltb,
  if◌then◌else◌, any, same, same_texts, one_of, starts_with, decimal, sort_texts, Result, ok, err,
  is_empty, length, has_char, utf8_encodable, value_error, ◌>>◌, raise_if,
}
use r_sandbox.Prelude.Int.{ℤ, pos, eqb_ℤ}
use r_sandbox.Prelude.Float.{zero_float}
use r_sandbox.Prelude.Paths.{join}
use r_sandbox.Models.Enums.{failed, blocked, supervisor}
use r_sandbox.Models.Records.{
  float, CapabilityRequest, PlanStep, ExecutionPlan, PolicyDecision, Authorization, RuntimeEvent,
  ExecutionResult, denied,
}
use r_sandbox.Models.Value.{Value}
use r_sandbox.Policy.Identity.{json_char}
use r_sandbox.Models.Equality.{same_request}
use r_sandbox.Agent.Orchestrator.Services.{
  AgentMode, analyze, dry_run, shadow, Inventory, captured, limited, unsafe_output, Order,
}

unfoldable pub mode_value : AgentMode → Text
mode_value analyze = lit "analyze"
mode_value dry_run = lit "dry-run"
mode_value shadow = lit "shadow"

-- `AgentMode(mode)`
unfoldable pub as_mode : Text → Result AgentMode
as_mode t =
    if same t (lit "analyze")
    then ok analyze
    else if same t (lit "dry-run")
    then ok dry_run
    else if same t (lit "shadow")
    then ok shadow
    else err (value_error (lit "Unsupported agent mode: " ++ t))

-- `_require_api_text`
unfoldable pub require_api_text : Value → Text → ℕ → Result Text
require_api_text (Value.text t) field maximum = do
  raise_if (is_empty t || (ltb maximum (length t) || has_char 0 t))
      (value_error (field ++ lit " must be non-empty bounded text"))
  raise_if (not (utf8_encodable t))
      (value_error (field ++ lit " must be valid UTF-8 text without lone surrogates"))
  ok t
require_api_text _ field maximum =
    err (value_error (field ++ lit " must be non-empty bounded text"))

-- `json.dumps(texts, ensure_ascii=False, separators=(",", ":"))`: only the characters that JSON
-- itself forbids are escaped.
wide_chars : Text → Text
unfolding json_char
wide_chars [] = []
wide_chars (c ∷ t) = let rest = wide_chars t in if ltb 126 c then c ∷ rest else json_char c ++ rest

wide_strings : List Text → List Text
unfolding wide_chars
wide_strings [] = []
wide_strings (t ∷ ts) = (34 ∷ (wide_chars t ++ 34 ∷ [])) ∷ wide_strings ts

unfoldable pub json_texts : List Text → Text
unfolding wide_strings join
json_texts ts = lit "[" ++ (join (lit ",") (wide_strings ts) ++ lit "]")

flagged : Text → List Text → List Text
flagged flag [] = []
flagged flag (t ∷ ts) = flag ∷ t ∷ flagged flag ts

-- `_reproduction_argv`
unfoldable pub reproduction_argv : Order → Text
unfolding json_texts flagged mode_value sort_texts
reproduction_argv u = json_texts (
    (lit "r-sandbox"
      ∷ mode_value u.mode
      ∷ u.repository
      ∷ lit "--goal"
      ∷ u.goal
      ∷ lit "--output"
      ∷ u.output
      ∷ lit "--image"
      ∷ u.image
      ∷ [])
    ++ (flagged (lit "--approve") (sort_texts u.approved_request_ids)
        ++ flagged (lit "--allow-domain") (sort_texts u.network_allowlist)))

unfoldable pub required_targets : List Text
required_targets =
    lit "<repository>"
    ∷ lit "<output>"
    ∷ lit "<temporary>"
    ∷ lit "<shared-memory>"
    ∷ lit "python"
    ∷ lit "python3"
    ∷ lit "1"
    ∷ lit "16"
    ∷ lit "64"
    ∷ lit "1024"
    ∷ []

-- `_required_authority_denied`
unfoldable pub required_authority_denied : Authorization → Bool
unfolding denied required_targets
required_authority_denied a = any (λ d. one_of d.request.target required_targets) (denied a)

-- `_malformed_proposal_rejected`
unfoldable pub malformed_proposal_rejected : Authorization → Bool
malformed_proposal_rejected a =
    any
      (λ d.
        same d.request.action (lit "invalid_proposal")
        || starts_with d.reason (lit "Authorization aborted because the plan contains"))
      a.decisions

-- `next(decisions).request` for each capability of a step: the requests, and the decisions left.
-- Without a decision the generator raises.
take_requests :
    List CapabilityRequest
    → List PolicyDecision
    → Option (List CapabilityRequest × List PolicyDecision)
take_requests [] ds = some ([], ds)
take_requests (r ∷ rs) [] = none
take_requests (r ∷ rs) (d ∷ ds) = elim (take_requests rs ds) [
  | none ↦ none
  | some taken ↦ some (d.request ∷ taken.0, taken.1)
]

quarantined_steps : List PlanStep → List PolicyDecision → Option (List PlanStep)
unfolding take_requests
quarantined_steps [] ds = some []
quarantined_steps (s ∷ ss) ds = elim (take_requests s.capabilities ds) [
  | none ↦ none
  | some taken ↦ elim (quarantined_steps ss taken.1) [
    | none ↦ none
    | some rest ↦ some (record s { capabilities = taken.0 } ∷ rest)
  ]
]

-- `_quarantined_plan`
unfoldable pub quarantined_plan : ExecutionPlan → Authorization → Result ExecutionPlan
unfolding quarantined_steps
quarantined_plan p a = elim (quarantined_steps p.steps a.decisions) [
  | none ↦ err (value_error (lit "generator raised StopIteration"))
  | some steps ↦ ok (record p { steps = steps })
]

failure_detail : Inventory → Text
failure_detail (captured m) = []
failure_detail (limited e) =
    lit "Output manifest exceeded a configured traversal bound: "
    ++ (e.limit_name
        ++ (lit "="
            ++ (decimal e.limit
                ++ (lit ", observed at least " ++ (decimal e.observed ++ lit ".")))))
failure_detail (unsafe_output name) =
    lit "Output manifest was unsafe or unavailable: "
    ++ (name ++ lit "; target-derived path text was omitted.")

-- The event of `_manifest_failure_result`.
unfoldable pub manifest_event : Inventory → RuntimeEvent
unfolding failure_detail
manifest_event i = record {
  event_type = lit "observer";
  action = lit "output_manifest";
  target = lit "fresh-output";
  allowed = false;
  detail = failure_detail i;
  source = supervisor;
}

-- `_manifest_failure_result`, on an inventory that was not captured.
unfoldable pub manifest_failure_result : Inventory → (before_execution : Bool) → ExecutionResult
unfolding manifest_event failure_detail
manifest_failure_result i before_execution = record {
  status = if before_execution then blocked else failed;
  exit_code = none;
  stdout = [];
  stderr = failure_detail i;
  duration_seconds = float zero_float;
  events = manifest_event i ∷ [];
  command_preview = [];
}

same_requests : List CapabilityRequest → List CapabilityRequest → Bool
unfolding same_request
same_requests [] [] = true
same_requests (a ∷ more) (b ∷ bs) = same_request a b && same_requests more bs
same_requests _ _ = false

same_steps : List PlanStep → List PlanStep → Bool
unfolding same_requests same_texts
same_steps [] [] = true
same_steps (a ∷ more) (b ∷ bs) =
    same a.step_id b.step_id
    && (same a.purpose b.purpose
        && (same_texts a.argv b.argv
            && (same a.cwd b.cwd
                && (same_requests a.capabilities b.capabilities && same_steps more bs))))
same_steps _ _ = false

-- `candidate == current_plan`
unfoldable pub same_plan : ExecutionPlan → ExecutionPlan → Bool
unfolding same_steps same_texts
same_plan a b =
    same a.goal b.goal
    && (same a.summary b.summary
        && (same_steps a.steps b.steps
            && (same_texts a.assumptions b.assumptions && eqb_ℤ a.attempt b.attempt)))

-- `max(1, min(max_attempts, 3))`
unfoldable pub attempts_of : ℤ → ℕ
attempts_of (pos n) = if ltb n 1 then 1 else if ltb n 3 then n else 3
attempts_of _ = 1
