-- ===== src/Agent/Orchestrator/Entry.antt =====
-- src/r_sandbox/agent/orchestrator.py: `run`, the checks of its arguments and the snapshot.
use r_sandbox.Prelude.{
  not, Option, none, some, List, ◌∷◌, Text, lit, is_empty, strip, value_error, os_error, Result, ok,
  err, ◌>>=◌, ◌>>◌, raise_if,
}
use r_sandbox.Prelude.Int.{ℤ}
use r_sandbox.Python.{Python}
use r_sandbox.System.{opened_snapshot, closed_snapshot, Trace, Run, ask, ◌then_run◌, Host}
use r_sandbox.Models.Report.{AgentReport}
use r_sandbox.Models.Value.{Value}
use r_sandbox.Policy.Identity.{capability_authorization_context}
use r_sandbox.Builder.Checks.{disjoint}
use r_sandbox.Agent.Orchestrator.Services.{AgentMode, Services, Snapshot, Order}
use r_sandbox.Agent.Orchestrator.Parts.{as_mode, require_api_text}
use r_sandbox.Agent.Orchestrator.Run.{run_snapshot}

-- The arguments of `run`.
pub record Request : Type 0 where
  pub repository : Text
  pub goal : Value
  pub output : Text
  pub mode : Text
  pub image : Text
  pub approved_request_ids : List Text
  pub network_allowlist : List Text
  pub max_attempts : ℤ

existing_path : Text → Option Text → Result Text
existing_path path none = err (os_error path)
existing_path path (some p) = ok p

-- The arguments behind the checks.
pub record Checked : Type 0 where
  pub mode : AgentMode
  pub goal : Text
  pub repository : Text
  pub output : Text
  pub context : Text

-- The checks of `run`.
unfoldable pub checked : Host → Request → Trace → Result Checked
unfolding as_mode require_api_text existing_path disjoint capability_authorization_context
checked H q t = do
  mode ← as_mode q.mode
  goal ← require_api_text q.goal (lit "goal") 16384
  repository ← existing_path q.repository (H.resolve_existing t q.repository)
  raise_if (not (H.is_directory t repository))
      (value_error (lit "Repository input must be a directory."))
  raise_if (is_empty (strip goal)) (value_error (lit "A non-empty research goal is required."))
  output ← existing_path q.output (H.resolve t q.output)
  raise_if (not (disjoint repository output))
      (value_error (lit "Output and repository directories must be disjoint."))
  context ← capability_authorization_context q.image
  ok (record {
    mode = mode;
    goal = strip goal;
    repository = repository;
    output = output;
    context = context;
  })

-- The arguments of the call of `_run_snapshot`.
unfoldable pub order_of : Request → Checked → Snapshot → Order
order_of q c snapshot = record {
  repository = c.repository;
  goal = c.goal;
  execution_repository = snapshot.root;
  snapshot_digest = snapshot.digest;
  snapshot_warnings = snapshot.warnings;
  snapshot_omissions = snapshot.omitted_paths;
  output = c.output;
  mode = c.mode;
  image = q.image;
  approved_request_ids = q.approved_request_ids;
  network_allowlist = q.network_allowlist;
  max_attempts = q.max_attempts;
  authorization_context = c.context;
}

-- The `with` block enters `self.snapshotter.create`, which copies the repository to a temporary
-- directory, and leaves it, however the block ended.
unfoldable pub open_snapshot : Services → Text → Run Snapshot
open_snapshot S repository t = (S.snapshot t repository, opened_snapshot repository ∷ t)

unfoldable pub released {ℓ} : {A : Type ℓ} → Result A → Result (Unit {0}) → Result A
released r (ok u) = r
released r (err e) = err e

unfoldable pub close_snapshot {ℓ} :
    {A : Type ℓ} → Services → Snapshot → Result A × Trace → Result A × Trace
unfolding released
close_snapshot S snapshot (r, t) =
    (released r (S.release t snapshot), closed_snapshot snapshot.root ∷ t)

unfoldable pub in_snapshot :
    Python → Host → Services → Request → Checked → Snapshot → Run AgentReport
unfolding order_of close_snapshot run_snapshot
in_snapshot P H S q c snapshot t =
    close_snapshot S snapshot (run_snapshot P H S (order_of q c snapshot) t)

-- `RSandboxAgent.run`
unfoldable pub run : Python → Host → Services → Request → Run AgentReport
unfolding checked open_snapshot in_snapshot
run P H S q =
    ask (checked H q) then_run λ c. open_snapshot S c.repository then_run in_snapshot P H S q c
