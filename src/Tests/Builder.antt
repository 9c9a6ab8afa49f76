-- ===== src/Tests/Builder.antt =====
-- The builder at a concrete host.
use r_sandbox.Prelude.{
  ℕ, ◌+◌, ◌≡◌, refl, true, false, some, List, [], ◌∷◌, ◌++◌, map, Text, lit, ok, err, value_error,
  ◌⊎◌, decimal,
}
use r_sandbox.Prelude.Int.{pos}
use r_sandbox.Prelude.Float.{one_float}
use r_sandbox.Python.{Python}
use r_sandbox.System.{
  made_parent, made_directory, assigned_directory, removed_directory, Trace, lift, ask, continue,
  ◌then_run◌, Metadata, missing, found, created, Host,
}
use r_sandbox.Models.Enums.{CapabilityCategory, filesystem, process, resource, low, allow}
use r_sandbox.Models.Records.{int, float, CapabilityRequest, PlanStep, Authorization}
use r_sandbox.Models.Value.{step_value, authorization_value}
use r_sandbox.Models.Limits.{ResourceLimits}
use r_sandbox.Models.Sandbox.{SandboxSpec}
use r_sandbox.Builder.Checks.{◌slash◌}
use r_sandbox.Agent.Planner.{name_of}
use r_sandbox.Builder.Output.{with_parents, output_directory}
use r_sandbox.Builder.Build.{build}
use r_sandbox.Builder.Laws.Output.{
  IsUndone, IsFresh, output_directory-err, output_directory-IsFresh,
}
use r_sandbox.Builder.Laws.Contract.{IsConfined, build-IsConfined}
use r_sandbox.Tests.Data.{policy_run, host}

abbrev pub one_host : Python
one_host = record host { parse_float = λ t. some one_float }

abbrev plain_directory : Metadata
plain_directory = record {
  link = false;
  junction = some false;
  reparse = false;
  directory = true;
  uid = 1000;
  gid = 1000;
  mode = 0x1C0;
}

-- Every path is a plain one, and only what was made is there.
abbrev pub quiet_host : Host
quiet_host = record {
  resolve_existing = λ t p. some p;
  resolve = λ t p. some p;
  is_directory = λ t p. true;
  is_file = λ t p. true;
  is_symlink = λ t p. some false;
  lstat = λ t p. elim t [ [] ↦ missing | e ∷ es ↦ found plain_directory ];
  mkdir = λ t p. (lit "/out" ∷ [], created);
  user = some (1000, 1000);
  assign = λ t p. true;
}

abbrev grant : ℕ → CapabilityCategory → Text → Text → CapabilityRequest
grant n c a t = record {
  request_id = lit "cap-0123456789abcdef0123456789abcd" ++ decimal (10 + n);
  category = c;
  action = a;
  target = t;
  justification = lit "needed";
  confidence = float one_float;
  risk = low;
  evidence = [];
}

abbrev pub grants : List CapabilityRequest
grants =
    grant 0 filesystem (lit "read") (lit "<repository>")
    ∷ grant 1 filesystem (lit "read") (lit "<output>")
    ∷ grant 2 filesystem (lit "write") (lit "<output>")
    ∷ grant 3 filesystem (lit "read") (lit "<temporary>")
    ∷ grant 4 filesystem (lit "write") (lit "<temporary>")
    ∷ grant 5 filesystem (lit "read") (lit "<shared-memory>")
    ∷ grant 6 filesystem (lit "write") (lit "<shared-memory>")
    ∷ grant 7 resource (lit "cpu") (lit "1")
    ∷ grant 8 resource (lit "memory_mb") (lit "1")
    ∷ grant 9 resource (lit "pids") (lit "1")
    ∷ grant 10 resource (lit "timeout_seconds") (lit "1")
    ∷ grant 11 resource (lit "output_mb") (lit "1")
    ∷ grant 12 resource (lit "output_files") (lit "1")
    ∷ grant 13 resource (lit "temporary_mb") (lit "1")
    ∷ grant 14 resource (lit "shared_memory_mb") (lit "1")
    ∷ grant 15 process (lit "execute") (lit "python")
    ∷ []

abbrev pub granted_step : PlanStep
granted_step = record {
  step_id = lit "execute-entrypoint-1";
  purpose = lit "train";
  argv = lit "python" ∷ lit "train.py" ∷ [];
  cwd = lit "/workspace";
  capabilities = grants;
}

abbrev pub all_allowed : Authorization
all_allowed = record {
  decisions = map (λ r. record { request = r; decision = allow; reason = lit "granted" }) grants;
}

abbrev pub one_of_each : ResourceLimits
one_of_each = record {
  cpus = int (pos 1);
  memory_mb = pos 1;
  pids = pos 1;
  timeout_seconds = pos 1;
  output_mb = pos 1;
  output_files = pos 1;
  temporary_mb = pos 1;
  shared_memory_mb = pos 1;
}

abbrev pub small_spec : SandboxSpec
small_spec = record {
  repository = lit "/repo";
  output = lit "/out/run";
  image = lit "python:3.11-slim";
  argv = granted_step.argv;
  source_repository = [];
  snapshot_digest = [];
  network_targets = [];
  environment = [];
  devices = [];
  limits = one_of_each;
  read_only_root = true;
  drop_capabilities = true;
}

builds :
    build one_host quiet_host
      (lit "/repo")
      (lit "/out/run")
      (step_value granted_step)
      (authorization_value all_allowed)
      (lit "python:3.11-slim")
      one_of_each
      true
      []
    ≡ (
      ok small_spec,
      assigned_directory (lit "/out/run")
          ∷ made_directory (lit "/out/run")
          ∷ made_parent (lit "/out")
          ∷ [],
    )
unfolding policy_run build continue ◌then_run◌ ask lift name_of ◌slash◌
builds = refl

build-IsConfined_example :
    IsConfined one_host quiet_host []
      (lit "/out/run")
      (step_value granted_step)
      (authorization_value all_allowed)
      one_of_each
      small_spec
build-IsConfined_example =
    build-IsConfined one_host quiet_host (step_value granted_step) (authorization_value all_allowed)
      one_of_each (lit "/repo") (lit "/out/run") (lit "python:3.11-slim") true [] _ small_spec
      builds

abbrev prepared : Trace
prepared =
    assigned_directory (lit "/out/run")
    ∷ made_directory (lit "/out/run")
    ∷ made_parent (lit "/out")
    ∷ []

prepares : output_directory quiet_host (lit "/out/run") true [] ≡ (ok (lit "/out/run"), prepared)
unfolding policy_run output_directory continue ◌then_run◌ ask lift
prepares = refl

output_directory-IsFresh_example :
    (c : Text) × IsFresh quiet_host (lit "/out/run") [] prepared (lit "/out/run") c
output_directory-IsFresh_example =
    output_directory-IsFresh quiet_host (lit "/out/run") [] prepared (lit "/out/run") prepares

-- The new directory cannot be assigned.
abbrev foreign_host : Host
foreign_host = record quiet_host { assign = λ t p. false }

abbrev undone : Trace
undone = removed_directory (lit "/out/run") ∷ prepared

undoes : output_directory foreign_host (lit "/out/run") true [] ≡ (
  err (value_error (lit "new output directory could not be assigned to the sandbox user")),
  undone,
)
unfolding policy_run output_directory continue ◌then_run◌ ask lift
undoes = refl

output_directory-err_example :
    (parents : List Text) × ((undone ≡ with_parents parents [])
      ⊎ IsUndone (with_parents parents []) undone)
output_directory-err_example =
    output_directory-err foreign_host (lit "/out/run") true [] undone
      (value_error (lit "new output directory could not be assigned to the sandbox user")) undoes
