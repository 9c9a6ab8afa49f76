-- ===== src/Policy/Handlers.antt =====
-- src/r_sandbox/policy/engine.py: the handler of each capability category.
mod Filesystem
unfoldable pub use Filesystem.*
use r_sandbox.Prelude.{
  ℕ, ◌+◌, Bool, true, false, not, ◌&&◌, ◌||◌, Option, none, some, List, [], ◌∷◌, ◌++◌, map, Text,
  lit, leb, ltb, ◌==◌, if◌then◌else◌, length, is_empty, any, all, same, one_of, starts_with, split,
  has_char, replace_char, decimal, is_alphanumeric, Raised, value_error, os_error, Result, ok, err,
  ◌>>=◌, ◌>>◌, raise_if,
}
use r_sandbox.Prelude.Float.{
  Float, is_finite, is_integer, le_float, lt_float, zero_float, threshold, exact,
}
use r_sandbox.Prelude.Paths.{PosixPath, posix_path, path_text, is_absolute, has_part}
use r_sandbox.Python.{Python, Url}
use r_sandbox.Models.Enums.{
  CapabilityCategory, filesystem, network, process, secret, device, resource, side_effect,
  RiskLevel, low, medium, high, critical, Decision, allow, deny, require_approval,
  is_require_approval,
}
use r_sandbox.Models.Records.{
  Number, bool, int, float, CapabilityRequest, PolicyDecision, Authorization,
}
use r_sandbox.Models.Value.{Value}
use r_sandbox.Models.Equality.{as_exact}
use r_sandbox.Policy.Checks.{
  valid_confidence, to_float, is_bool, host_of, has_extras, canonical_target,
}
use r_sandbox.Policy.Request.{quarantine_request}
use r_sandbox.Policy.Plan.{ValidatedRequest, ValidatedPlan, validate_execution_plan, has_error}
use r_sandbox.Policy.Identity.{capability_request_id}
use r_sandbox.Policy.Config.{
  PolicyConfig, is_hostname, bad_port, endpoint, normalized, numeric_config_error,
}
use Filesystem.{Answer}

-- `request.confidence < 0.65`
unfoldable pub below_threshold : Number → Bool
below_threshold (bool false) = lt_float zero_float threshold
below_threshold (bool true) = false
below_threshold (int n) = lt_float (exact n) threshold
below_threshold (float f) = lt_float f threshold

-- The part of `_network` behind the parsed target.
unfoldable pub host_answer : Python → PolicyConfig → CapabilityRequest → Text → Option ℕ → Answer
unfolding is_hostname below_threshold endpoint
host_answer P cfg r host port =
    if is_empty host
      || (one_of host (lit "*" ∷ lit "0.0.0.0" ∷ lit "localhost" ∷ []) || not (is_hostname host))
    then (deny, lit "Network access requires one concrete public hostname.")
    else if P.is_internal_address host
    then (deny, lit "Private, loopback, and link-local destinations are never exposed.")
    else if one_of (P.lower r.action)
        (lit "post" ∷ lit "put" ∷ lit "upload" ∷ lit "send" ∷ lit "connect_unknown" ∷ [])
    then (deny, lit "Potential data egress is not approvable in the MVP policy.")
    else if not (same (P.lower r.action) (lit "download"))
    then (deny, lit "Unknown or non-download network actions are denied by default.")
    else if below_threshold r.confidence
    then (
      deny,
      lit "The requested destination is not sufficiently related to the stated research goal.",
    )
    else if one_of (endpoint host port) cfg.network_allowlist
    then (allow, lit "Exact endpoint is present in the explicit run allowlist.")
    else (
      require_approval,
      lit "Network is off by default; approve this exact endpoint to continue.",
    )

unfoldable pub url_answer : Python → PolicyConfig → CapabilityRequest → Option Url → Answer
unfolding host_of has_extras canonical_target bad_port host_answer
url_answer P cfg r none = (deny, lit "Malformed network targets are never authorized.")
url_answer P cfg r (some u) =
    let host = host_of P u in
    if is_empty host
      || (has_extras u || (not (same r.target (canonical_target host u.port)) || bad_port u.port))
    then (deny, lit "Network targets must be one canonical lowercase hostname[:port].")
    else host_answer P cfg r host u.port

-- `_network`
unfoldable pub network_answer : Python → PolicyConfig → CapabilityRequest → Answer
unfolding url_answer
network_answer P cfg r = url_answer P cfg r (P.urlparse (lit "//" ++ r.target))

unfoldable pub safe_executables : List Text
safe_executables = lit "python" ∷ lit "python3" ∷ []

abbrev at_most_medium : RiskLevel → Bool
at_most_medium low = true
at_most_medium medium = true
at_most_medium _ = false

-- `_process`
unfoldable pub process_answer : Python → PolicyConfig → CapabilityRequest → Answer
process_answer P cfg r =
    if not (same (P.lower r.action) (lit "execute"))
    then (deny, lit "Unsupported process capability.")
    else if one_of r.target safe_executables
        && (one_of r.target cfg.allowed_executables && at_most_medium r.risk)
    then (allow, lit "Executable is in the narrow research-runtime allowlist.")
    else (deny, lit "Arbitrary subprocess execution is outside the sandbox contract.")

-- `_device`
unfoldable pub device_answer : Python → CapabilityRequest → Answer
unfolding below_threshold
device_answer P r =
    if not (same (P.lower r.action) (lit "access"))
    then (deny, lit "Device inspection cannot be isolated from full device access.")
    else if not (one_of (P.lower r.target) (lit "gpu" ∷ lit "cuda" ∷ []))
    then (deny, lit "Arbitrary host devices are never exposed.")
    else if below_threshold r.confidence
    then (deny, lit "GPU access is not justified by the stated research goal.")
    else (require_approval, lit "GPU access requires explicit approval.")

-- `maximums.get(action)`, as the exact value that the comparison reads: `float` is taken of every
-- ceiling but that of the processors. An overflow of `float` raises, and is `none` here too: the
-- ceilings of a checked configuration do not overflow.
unfoldable pub maximum_of : PolicyConfig → Text → Option Float
maximum_of c action =
    if same action (lit "cpu")
    then some (as_exact c.max_cpus)
    else if same action (lit "memory_mb")
    then to_float c.max_memory_mb
    else if same action (lit "pids")
    then to_float c.max_pids
    else if same action (lit "timeout_seconds")
    then to_float c.max_timeout_seconds
    else if same action (lit "output_mb")
    then to_float c.max_output_mb
    else if same action (lit "output_files")
    then to_float c.max_output_files
    else if same action (lit "temporary_mb")
    then to_float c.max_temporary_mb
    else if same action (lit "shared_memory_mb")
    then to_float c.max_shared_memory_mb
    else none

unfoldable pub whole_actions : List Text
whole_actions =
    lit "memory_mb"
    ∷ lit "pids"
    ∷ lit "timeout_seconds"
    ∷ lit "output_mb"
    ∷ lit "output_files"
    ∷ lit "temporary_mb"
    ∷ lit "shared_memory_mb"
    ∷ []

unfoldable pub over_maximum : Float → Option Float → Bool
over_maximum value none = true
over_maximum value (some maximum) = le_float value zero_float || lt_float maximum value

unfoldable pub amount_answer : PolicyConfig → Text → Option Float → Answer
unfolding maximum_of over_maximum
amount_answer cfg action none = (deny, lit "Resource limits must be finite numeric strings.")
amount_answer cfg action (some value) =
    if not (is_finite value)
    then (deny, lit "Resource limits must be finite numeric strings.")
    else if one_of action whole_actions && not (is_integer value)
    then (deny, lit "This resource limit must be a whole number.")
    else if over_maximum value (maximum_of cfg action)
    then (deny, lit "Requested resource is unknown or exceeds the configured ceiling.")
    else (allow, lit "Request is within the configured resource ceiling.")

-- `_resource`
unfoldable pub resource_answer : Python → PolicyConfig → CapabilityRequest → Answer
unfolding amount_answer
resource_answer P cfg r = amount_answer cfg (P.lower r.action) (P.parse_float r.target)

-- `_side_effect`
unfoldable pub side_effect_answer : Python → CapabilityRequest → Answer
side_effect_answer P r =
    if one_of (P.lower r.action) (
      lit "delete"
      ∷ lit "overwrite"
      ∷ lit "publish"
      ∷ lit "push"
      ∷ lit "upload"
      ∷ lit "external_write"
      ∷ [])
    then (deny, lit "Irreversible or external side effects are forbidden.")
    else (deny, lit "Unknown or dynamic side effects are denied by default.")
