-- ===== src/Observe/Classes.antt =====
-- src/r_sandbox/tools/runtime_observer/observer.py: the classes of runs and `_classification`.
use r_sandbox.Prelude.{
  ℕ, Bool, false, not, ◌&&◌, ◌||◌, Option, none, some, List, [], ◌∷◌, ◌++◌, Text, lit,
  if◌then◌else◌, any, same, one_of, ◌==◌,
}
use r_sandbox.Prelude.Int.{ℤ, pos, negsuc}
use r_sandbox.Python.{Python}
use r_sandbox.Models.Enums.{is_planned, is_succeeded, is_runtime_unavailable, is_target_telemetry}
use r_sandbox.Models.Records.{RuntimeEvent, ExecutionResult}
use r_sandbox.Models.Canonical.{is_zero_exit}

pub data FailureClass : Type 0 where
  dependency_or_version permission command_or_config resource runtime_unavailable : FailureClass
  success dry_run unknown_failure blocked_behavior incomplete_observation : FailureClass

unfoldable pub class_text : FailureClass → Text
class_text dependency_or_version = lit "dependency_or_version"
class_text permission = lit "permission"
class_text command_or_config = lit "command_or_config"
class_text resource = lit "resource"
class_text runtime_unavailable = lit "runtime_unavailable"
class_text success = lit "success"
class_text dry_run = lit "dry_run"
class_text unknown_failure = lit "unknown_failure"
class_text blocked_behavior = lit "blocked_behavior"
class_text incomplete_observation = lit "incomplete_observation"

-- `_PATTERNS`, in the order in which `_classification` tries them.
resource_pattern : Text
resource_pattern =
    lit
      "timed?\\s*out|timeout|out of memory|oom(?:killed)?|memory limit|no space left on device|resource temporarily unavailable|too many open files|pids? limit|killed"

permission_pattern : Text
permission_pattern =
    lit
      "permission denied|operation not permitted|read-only file system|access (?:is )?denied|not authorized|forbidden|network is unreachable|egress .{0,30}(?:blocked|denied)|requires? approval"

dependency_pattern : Text
dependency_pattern =
    lit
      "modulenotfounderror|no module named|importerror|distributionnotfound|versionconflict|requires python|unsupported python version|could not find a version that satisfies|no matching distribution|no such image|package .{0,60} not found|undefined symbol|shared librar(?:y|ies).{0,30}(?:not found|cannot open)"

command_pattern : Text
command_pattern =
    lit
      "executable file not found|command not found|unknown (?:option|argument)|unrecognized arguments?|invalid (?:option|argument|configuration)|usage:|no such file or directory|can't open file|cannot open file|syntaxerror|configuration error|config(?:uration)? file .{0,30}not found"

unfoldable pub blocked_types : List Text
blocked_types =
    lit "filesystem"
    ∷ lit "network"
    ∷ lit "process"
    ∷ lit "secret"
    ∷ lit "device"
    ∷ lit "resource"
    ∷ lit "side_effect"
    ∷ []

-- One element of `blocked_evidence`.
unfoldable pub is_blocked_evidence : Python → RuntimeEvent → Bool
is_blocked_evidence P e = not e.allowed && one_of (P.lower e.event_type) blocked_types

unfoldable pub has_kind : Python → Text → RuntimeEvent → Bool
has_kind P kind e = same (P.lower e.event_type) kind

-- The audit hook's own event: target code has started.
unfoldable pub is_start : RuntimeEvent → Bool
is_start e =
    is_target_telemetry e.source
    && (same e.event_type (lit "runtime") && same e.action (lit "audit_hook"))

abbrev pub exits_with : ℕ → Option ℤ → Bool
exits_with n none = false
exits_with n (some (pos m)) = m == n
exits_with n (some (negsuc m)) = false

-- The diagnosis from the output, for runs whose target code has not started.
unfoldable pub diagnose : Python → Text → FailureClass
unfolding resource_pattern permission_pattern dependency_pattern command_pattern
diagnose P diagnostic =
    if P.search resource_pattern diagnostic
    then resource
    else if P.search permission_pattern diagnostic
    then permission
    else if P.search dependency_pattern diagnostic
    then dependency_or_version
    else if P.search command_pattern diagnostic
    then command_or_config
    else unknown_failure

unfoldable pub by_exit : Python → ExecutionResult → FailureClass
unfolding diagnose has_kind
by_exit P r =
    if exits_with 126 r.exit_code
    then permission
    else if exits_with 127 r.exit_code
    then command_or_config
    else if any (has_kind P (lit "resource")) r.events
        || (exits_with 137 r.exit_code || exits_with 143 r.exit_code)
    then resource
    else diagnose P (r.stderr ++ 10 ∷ r.stdout)

invoke_failed : Python → RuntimeEvent → Bool
invoke_failed P e =
    not e.allowed
    && (same (P.lower e.event_type) (lit "runtime") && same (P.lower e.action) (lit "invoke"))

vouched_resource : Python → RuntimeEvent → Bool
vouched_resource P e =
    same (P.lower e.event_type) (lit "resource") && not (is_target_telemetry e.source)

-- `_classification`
unfoldable pub classify : Python → ExecutionResult → FailureClass
unfolding is_blocked_evidence has_kind is_start by_exit invoke_failed vouched_resource
classify P r =
    if is_runtime_unavailable r.status
    then runtime_unavailable
    else if any (is_blocked_evidence P) r.events
    then blocked_behavior
    else if is_planned r.status && any (λ e. same e.event_type (lit "dry_run")) r.events
    then dry_run
    else if any (has_kind P (lit "observer")) r.events
    then incomplete_observation
    else if is_succeeded r.status && is_zero_exit r.exit_code
    then success
    else if any (invoke_failed P) r.events
    then runtime_unavailable
    else if any (vouched_resource P) r.events
    then resource
    else if any (λ e. not e.allowed) r.events
        && any
            (λ e. one_of (P.lower e.event_type) (
              lit "network"
              ∷ lit "filesystem"
              ∷ lit "permission"
              ∷ lit "policy"
              ∷ lit "authorization"
              ∷ []))
            r.events
    then permission
    else if any is_start r.events
    then unknown_failure
    else by_exit P r
