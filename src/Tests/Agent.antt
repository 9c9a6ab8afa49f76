-- ===== src/Tests/Agent.antt =====
-- The planners on a small repository.
use r_sandbox.Prelude.{
  ◌≡◌, ◌↔◌, refl, ◌⊎◌, true, some, [], ◌∷◌, ◌++◌, Text, lit, ok, err, value_error, ◌>>=◌, raise_if,
  same, one_of, has_char, has_infix, starts_with, split, replace_char, decimal, strip, when,
}
use r_sandbox.Prelude.Int.{pos, integer_text}
use r_sandbox.Prelude.Float.{one_float, zero_float, le_float, lt_float}
use r_sandbox.Prelude.Paths.{posix_path, has_part, join}
use r_sandbox.Models.Records.{Entrypoint, RepositoryProfile, ExecutionPlan}
use r_sandbox.Agent.Planner.{
  plan, select_entrypoint, validate_argv, executables, control_tokens, audit_flags, lt_text,
  step_of,
}
use r_sandbox.Agent.Planner.Laws.{IsPlanned, plan-IsPlanned}
use r_sandbox.Agent.Environment.{
  environment_plan, is_pinned, is_hex, pin_mark, IsDigestName, environment_plan-image_pinned,
}
use r_sandbox.Tests.Data.{host, download, sixteen}

agent_run : Unit {0}
unfolding plan select_entrypoint validate_argv executables control_tokens audit_flags lt_text
    step_of lit same one_of has_char has_infix starts_with split replace_char decimal strip
    posix_path has_part join integer_text le_float lt_float one_float zero_float ◌>>=◌ raise_if
    environment_plan is_pinned is_hex pin_mark when
agent_run = tt

abbrev entry : Text → Entrypoint
entry path = record {
  path = path;
  argv = lit "python" ∷ path ∷ [];
  confidence = zero_float;
  evidence = lit "main guard";
}

abbrev profile : RepositoryProfile
profile = record {
  root = lit "/repo";
  goal = lit "train a model";
  summary = [];
  files = [];
  entrypoints = entry (lit "main.py") ∷ entry (lit "train.py") ∷ [];
  dependencies = record { name = lit "numpy"; specifier = lit ">=1"; source = lit "setup.py" } ∷ [];
  findings = [];
  warnings = [];
  snapshot_digest = [];
  snapshot_omissions = [];
  authorization_context = [];
}

-- Of two equal candidates the one with the greater path is taken.
selects : select_entrypoint host profile ≡ some (entry (lit "train.py"))
unfolding agent_run
selects = refl

abbrev planned : ExecutionPlan
planned = record {
  goal = profile.goal;
  summary = lit "Execute one statically identified entrypoint in a least-authority sandbox.";
  steps =
      step_of profile (download ∷ []) (pos 1) (entry (lit "train.py"))
        (lit "python" ∷ lit "train.py" ∷ [])
      ∷ [];
  assumptions =
      lit "The repository is untrusted and mounted read-only."
      ∷ lit
          "Only the fresh /output host bind is persistently writable; bounded /tmp and /dev/shm are ephemeral."
      ∷ lit "Network and host secrets remain unavailable unless separately authorized."
      ∷ [];
  attempt = pos 1;
}

plans : plan host profile (download ∷ []) (pos 1) (select_entrypoint host profile) ≡ ok planned
unfolding agent_run
plans = refl

plan-IsPlanned_example :
    ((profile.entrypoints ≡ []) × (planned.steps ≡ []))
    ⊎ ((e : Entrypoint) × IsPlanned host profile (download ∷ []) (pos 1) planned e)
plan-IsPlanned_example = plan-IsPlanned host profile (download ∷ []) (pos 1) planned plans

refuses :
    validate_argv host (lit "python" ∷ lit "../x.py" ∷ [])
    ≡ err (value_error (lit "Parent traversal is forbidden in command arguments."))
unfolding agent_run
refuses = refl

abbrev digest : Text
digest = sixteen ++ (sixteen ++ (sixteen ++ sixteen))

abbrev pinned_image : Text
pinned_image = lit "python" ++ (lit "@sha256:" ++ digest)

pins : is_pinned pinned_image ≡ true
unfolding agent_run
pins = refl

environment_plan-image_pinned_example :
    ((environment_plan profile pinned_image).image_pinned ≡ true) ↔ IsDigestName pinned_image
environment_plan-image_pinned_example = environment_plan-image_pinned profile pinned_image
