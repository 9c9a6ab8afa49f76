-- ===== src/Observe/Replan.antt =====
-- src/r_sandbox/agent/reflection.py: `replan`.
use r_sandbox.Prelude.{
  ℕ, ◌+◌, Bool, not, ◌&&◌, ◌||◌, List, [], ◌∷◌, ◌++◌, Text, lit, if◌then◌else◌, same, one_of,
  value_error, Result, ok, err, ◌>>=◌,
}
use r_sandbox.Prelude.Int.{ℤ, pos, negsuc, integer_text}
use r_sandbox.Python.{Python}
use r_sandbox.Models.Enums.{is_process}
use r_sandbox.Models.Records.{CapabilityRequest, PlanStep, ExecutionPlan, Reflection}
use r_sandbox.Policy.Identity.{capability_request_id}

-- `n + 1`
next_attempt : ℤ → ℤ
next_attempt (pos n) = pos (n + 1)
next_attempt (negsuc ℕ.zero) = pos 0
next_attempt (negsuc (ℕ.suc n)) = negsuc n

-- "python3" for "python", and "python" for anything else.
unfoldable pub other_executable : Text → Text
other_executable argv0 = if same argv0 (lit "python") then lit "python3" else lit "python"

-- The request that grants the step's interpreter.
unfoldable pub names_executable : Text → CapabilityRequest → Bool
names_executable argv0 r =
    is_process r.category && (same r.action (lit "execute") && same r.target argv0)

unfoldable pub switch_justification : Text
switch_justification = lit "Use the alternate Python executable after a command-resolution failure."

-- The new id is the one of the request with the new target and justification.
unfoldable pub switched : Text → CapabilityRequest → CapabilityRequest
switched executable r = record r { target = executable; justification = switch_justification }

unfoldable pub switch_request :
    Python
    → (repository goal digest context argv0 : Text) → CapabilityRequest
    → Result CapabilityRequest
unfolding other_executable names_executable switched
switch_request P repository goal digest context argv0 r =
    let s = switched (other_executable argv0) r in
    let renamed = capability_request_id P repository goal s digest context >>= λ i.
    ok (record s { request_id = i }) in
    if names_executable argv0 r then renamed else ok r

unfoldable pub switch_requests :
    Python
    → (repository goal digest context argv0 : Text) → List CapabilityRequest
    → Result (List CapabilityRequest)
unfolding switch_request
switch_requests P repository goal digest context argv0 [] = ok []
switch_requests P repository goal digest context argv0 (r ∷ rs) = do
  s ← switch_request P repository goal digest context argv0 r
  ss ← switch_requests P repository goal digest context argv0 rs
  ok (s ∷ ss)

-- `plan.steps[0]` with an `argv`; an empty one is an IndexError.
unfoldable pub switch_step :
    Python
    → (repository digest context : Text) → ExecutionPlan
    → PlanStep
    → List Text
    → Result ExecutionPlan
unfolding next_attempt integer_text other_executable switch_requests
switch_step P repository digest context plan step [] = err (value_error (lit "IndexError"))
switch_step P repository digest context plan step (argv0 ∷ rest) = do
  capabilities ← switch_requests P repository plan.goal digest context argv0 step.capabilities
  ok (record plan {
    steps =
        record step {
          step_id = lit "execute-entrypoint-" ++ integer_text (next_attempt plan.attempt);
          argv = other_executable argv0 ∷ rest;
          capabilities = capabilities;
        }
        ∷ [];
    attempt = next_attempt plan.attempt;
  })

unfoldable pub switch_first :
    Python
    → (repository digest context : Text) → ExecutionPlan
    → List PlanStep
    → Result ExecutionPlan
unfolding switch_step
switch_first P repository digest context plan [] = ok plan
switch_first P repository digest context plan (step ∷ steps) =
    switch_step P repository digest context plan step step.argv

unfoldable pub retry_classes : List Text
retry_classes = lit "command" ∷ lit "command_or_config" ∷ []

-- `ReflectionAgent.replan`
unfoldable pub replan :
    Python → ExecutionPlan → Reflection → (repository digest context : Text) → Result ExecutionPlan
unfolding switch_first retry_classes
replan P plan r repository digest context =
    if not r.should_retry || not (one_of r.classification retry_classes)
    then ok plan
    else switch_first P repository digest context plan plan.steps
