-- ===== src/Builder/Build.antt =====
-- src/r_sandbox/tools/sandbox_builder/builder.py: `SandboxBuilder.build`.
use r_sandbox.Prelude.{
  Bool, true, not, Option, none, some, List, [], ◌∷◌, ◌++◌, Text, lit, value_error, os_error,
  Result, ok, err, ◌>>=◌, ◌>>◌, raise_if,
}
use r_sandbox.Python.{Python}
use r_sandbox.System.{Trace, Run, lift, ask, ◌then_run◌, Host}
use r_sandbox.Models.Records.{CapabilityRequest, PlanStep, Authorization}
use r_sandbox.Models.Value.{Value}
use r_sandbox.Models.Limits.{ResourceLimits}
use r_sandbox.Models.Sandbox.{SandboxSpec, sandbox_spec}
use r_sandbox.Policy.Plan.{canonical_plan_step, canonical_authorization}
use r_sandbox.Builder.Checks.{disjoint, validate_bare_step, validate_image, validate_limits}
use r_sandbox.Builder.Grants.{
  require_unique, allowed_requests, require_mounts, require_resource_grants, process_granted,
  network_targets_of, devices_of,
}
use r_sandbox.Builder.Output.{output_directory, validate_mount_path, check_supplied}

-- `_existing_directory`
existing_directory : Host → Trace → Text → Text → Result Text
existing_directory H t path label = elim (H.resolve_existing t path) [
  | none ↦ err (value_error (label ++ (lit " directory does not exist: " ++ path)))
  | some resolved ↦ do
    raise_if (not (H.is_directory t resolved))
        (value_error (label ++ (lit " is not a directory: " ++ resolved)))
    ok resolved
]

-- `argv[0]` of a step that has one.
first_argument : List Text → Text
first_argument [] = []
first_argument (a ∷ rest) = a

-- What `build` knows when it turns to the output.
pub record Admitted : Type 0 where
  pub repository : Text
  pub step : PlanStep
  pub grants : List CapabilityRequest

-- `build` up to the output, for a resolved repository.
unfoldable pub admit_grants :
    Python → PlanStep → Authorization → ResourceLimits → Result (List CapabilityRequest)
unfolding require_unique allowed_requests require_mounts require_resource_grants process_granted
    first_argument
admit_grants P s a limits = do
  require_unique [] a.decisions
  rs ← allowed_requests a.decisions s.capabilities
  require_mounts rs
  require_resource_grants P rs limits
  raise_if (not (process_granted (first_argument s.argv) rs))
      (value_error (lit "container argv[0] is not bound to an allowed process capability"))
  ok rs

unfoldable pub admit :
    Python
    → Host
    → (repository : Text) (step proposed : Value) (image : Text) → ResourceLimits
    → Trace
    → Result Admitted
unfolding canonical_plan_step canonical_authorization existing_directory validate_bare_step
    validate_image validate_limits admit_grants
admit P H repository step proposed image limits t = do
  s ← canonical_plan_step P step
  a ← canonical_authorization P proposed
  r ← existing_directory H t repository (lit "repository")
  validate_bare_step P H t s r
  validate_image P image
  validate_limits limits
  rs ← admit_grants P s a limits
  ok (record { repository = r; step = s; grants = rs })

unfoldable pub admit_candidate : (repository output : Text) → Option Text → Result Text
unfolding disjoint
admit_candidate repository output none = err (os_error output)
admit_candidate repository output (some candidate) = do
  raise_if (not (disjoint repository candidate)) (
      value_error (
        lit
          "repository and output must be disjoint directories; a nested writable mount would mutate or overexpose the source tree"))
  ok candidate

-- The output as `build` hands it to `_output_directory`.
unfoldable pub admit_output : Host → (repository output : Text) → Trace → Result Text
unfolding check_supplied admit_candidate
admit_output H repository output t = do
  check_supplied output (H.lstat t output)
  admit_candidate repository output (H.resolve t output)

unfoldable pub specify : Admitted → Text → Text → ResourceLimits → Result SandboxSpec
unfolding validate_mount_path network_targets_of devices_of sandbox_spec
specify a output image limits = do
  validate_mount_path a.repository (lit "repository")
  validate_mount_path output (lit "output")
  sandbox_spec (record {
    repository = a.repository;
    output = output;
    image = image;
    argv = a.step.argv;
    source_repository = [];
    snapshot_digest = [];
    network_targets = network_targets_of a.grants;
    environment = [];
    devices = devices_of a.grants;
    limits = limits;
    read_only_root = true;
    drop_capabilities = true;
  })

-- `build`, with the selected limits.
unfoldable pub build :
    Python
    → Host
    → (repository output : Text) (step proposed : Value) (image : Text) → ResourceLimits
    → Bool
    → Run SandboxSpec
unfolding admit admit_output output_directory specify
build P H repository output step proposed image limits require_fresh =
    ask (admit P H repository step proposed image limits) then_run λ a.
    ask (admit_output H a.repository output) then_run λ candidate.
    output_directory H candidate require_fresh then_run λ resolved.
    lift (specify a resolved image limits)
