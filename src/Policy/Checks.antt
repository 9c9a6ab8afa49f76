-- ===== src/Policy/Checks.antt =====
-- src/r_sandbox/policy/proposal_validation.py: the bounds and the checks of single values.
pub mod Laws
use r_sandbox.Prelude.{
  ℕ, Bool, true, false, not, ◌&&◌, ◌||◌, Option, none, some, List, [], ◌∷◌, ◌++◌, Text, lit, leb,
  ltb, ◌==◌, if◌then◌else◌, length, is_empty, all, take, drop, same, one_of, has_char,
  utf8_encodable, is_lower_hex, decimal, rstrip_char,
}
use r_sandbox.Prelude.Float.{Float, is_finite, le_float, float_of_int, zero_float, one_float}
use r_sandbox.Python.{Python, Url}
use r_sandbox.Models.Enums.{is_network}
use r_sandbox.Models.Records.{Number, bool, int, float, CapabilityRequest}

abbrev pub max_plan_steps : ℕ
max_plan_steps = 1

abbrev pub max_capabilities : ℕ
max_capabilities = 6000

abbrev pub max_assumptions : ℕ
max_assumptions = 256

abbrev pub max_argv_items : ℕ
max_argv_items = 256

abbrev pub max_evidence_items : ℕ
max_evidence_items = 128

abbrev pub max_goal_length : ℕ
max_goal_length = 16384

abbrev pub max_summary_length : ℕ
max_summary_length = 32768

abbrev pub max_step_id_length : ℕ
max_step_id_length = 256

abbrev pub max_purpose_length : ℕ
max_purpose_length = 16384

abbrev pub max_cwd_length : ℕ
max_cwd_length = 4096

abbrev pub max_arg_length : ℕ
max_arg_length = 8192

abbrev pub max_assumption_length : ℕ
max_assumption_length = 16384

abbrev pub max_action_length : ℕ
max_action_length = 128

abbrev pub max_target_length : ℕ
max_target_length = 8192

abbrev pub max_justification_length : ℕ
max_justification_length = 16384

abbrev pub max_evidence_source_length : ℕ
max_evidence_source_length = 4096

abbrev pub max_evidence_detail_length : ℕ
max_evidence_detail_length = 16384

abbrev pub max_line_number : ℕ
max_line_number = 2147483647

abbrev pub max_attempt : ℕ
max_attempt = 1000

abbrev pub max_policy_reason_length : ℕ
max_policy_reason_length = 32768

-- `_text_error` on an exact string; `require_text` has its answer for any other object.
unfoldable pub text_error_of : Text → Text → ℕ → Option Text
text_error_of t field maximum =
    if is_empty t
    then some (field ++ lit " must not be empty")
    else if ltb maximum (length t)
    then some (field ++ lit " exceeds " ++ decimal maximum ++ lit " characters")
    else if has_char 0 t
    then some (field ++ lit " must not contain NUL")
    else if utf8_encodable t
    then none
    else some (field ++ lit " must be valid UTF-8 text without lone surrogates")

-- `error_a or error_b`, the right one computed only on demand.
abbrev pub or_error : Option Text → Option Text → Option Text
or_error (some e) other = some e
or_error none other = other

-- `float(n)`; `none` is OverflowError.
unfoldable pub to_float : Number → Option Float
to_float (bool false) = some zero_float
to_float (bool true) = some one_float
to_float (int n) = float_of_int n
to_float (float f) = some f

abbrev pub is_bool : Number → Bool
is_bool (bool b) = true
is_bool _ = false

in_unit_interval : Option Float → Bool
in_unit_interval none = false
in_unit_interval (some f) = is_finite f && (le_float zero_float f && le_float f one_float)

-- `_valid_confidence`, the same in engine.py.
unfoldable pub valid_confidence : Number → Bool
unfolding in_unit_interval to_float
valid_confidence n = if is_bool n then false else in_unit_interval (to_float n)

-- `_REQUEST_ID_RE.fullmatch`
unfoldable pub is_request_id : Text → Bool
is_request_id t = same (take 4 t) (lit "cap-") && (length t == 36 && all is_lower_hex (drop 4 t))

-- `(parsed.hostname or "").lower().rstrip(".")`
unfoldable pub host_of : Python → Url → Text
host_of P u = rstrip_char b'.' (elim u.hostname [ none ↦ P.lower [] | some h ↦ P.lower h ])

abbrev pub has_value : Option Text → Bool
has_value none = false
has_value (some t) = true

-- What the three readers of an endpoint share: no user, path, query or fragment beside the host.
unfoldable pub has_extras : Url → Bool
has_extras u =
    has_value u.username
    || (has_value u.password
        || (not (is_empty u.path) || (not (is_empty u.query) || not (is_empty u.fragment))))

-- `f"{host}:{port}" if port is not None else host`
unfoldable pub canonical_target : Text → Option ℕ → Text
canonical_target host none = host
canonical_target host (some port) = host ++ lit ":" ++ decimal port

canonical_error : Text
canonical_error = lit "network target must be one canonical lowercase hostname[:port]"

-- The body of the `try` of `_category_value_error` and the test after it.
unfoldable pub endpoint_error : Python → Text → Option Url → Option Text
unfolding host_of has_extras canonical_target canonical_error
endpoint_error P target none = some canonical_error
endpoint_error P target (some u) =
    if is_empty (host_of P u)
      || (has_extras u || not (same target (canonical_target (host_of P u) u.port)))
    then some canonical_error
    else none

-- `_category_value_error`
unfoldable pub category_value_error : Python → CapabilityRequest → Option Text
unfolding endpoint_error
category_value_error P r =
    if is_network r.category
    then (if one_of r.target (lit "<dynamic>" ∷ lit "<invalid-network-target>" ∷ [])
        then none
        else endpoint_error P r.target (P.urlparse (lit "//" ++ r.target)))
    else none
