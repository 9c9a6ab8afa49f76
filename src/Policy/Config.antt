-- ===== src/Policy/Config.antt =====
-- src/r_sandbox/policy/engine.py: hostnames, the configuration and the checks on it.
use r_sandbox.Prelude.{
  ℕ, Bool, true, false, not, ◌&&◌, ◌||◌, Option, none, some, List, [], ◌∷◌, ◌++◌, Text, lit, leb,
  ltb, ◌==◌, if◌then◌else◌, length, is_empty, any, all, split, has_char, decimal, is_alphanumeric,
  value_error, os_error, Result, ok, err, ◌>>=◌, ◌>>◌, raise_if,
}
use r_sandbox.Prelude.Float.{Float, is_finite, le_float, zero_float}
use r_sandbox.Python.{Python, Url}
use r_sandbox.Models.Records.{Number, int}
use r_sandbox.Policy.Checks.{to_float, is_bool, host_of, has_extras}

-- `_HOST_RE.fullmatch`: labels of 1 to 63 letters, digits and inner hyphens, joined by dots.
ends_well : Text → Bool
ends_well [] = false
ends_well (c ∷ []) = is_alphanumeric c
ends_well (c ∷ d ∷ t) = ends_well (d ∷ t)

starts_well : Text → Bool
starts_well [] = false
starts_well (c ∷ t) = is_alphanumeric c

is_label : Text → Bool
unfolding ends_well starts_well
is_label t =
    leb (length t) 63
    && (starts_well t && (ends_well t && all (λ c. is_alphanumeric c || c == b'-') t))

unfoldable pub is_hostname : Text → Bool
unfolding is_label
is_hostname t = all is_label (split b'.' t)

unfoldable pub bad_port : Option ℕ → Bool
bad_port none = false
bad_port (some port) = not (leb 1 port && leb port 65535)

abbrev pub port_or_https : Option ℕ → ℕ
port_or_https none = 443
port_or_https (some port) = port

-- `f"{host}:{443 if port is None else port}"`
unfoldable pub endpoint : Text → Option ℕ → Text
endpoint host port = host ++ lit ":" ++ decimal (port_or_https port)

-- `_configured_network_endpoint`
configured_url : Python → Option Url → Result Text
unfolding host_of has_extras is_hostname bad_port endpoint
configured_url P none = err (value_error (lit "network_allowlist contains a malformed endpoint"))
configured_url P (some u) =
    let host = host_of P u in
    if is_empty host || (has_extras u || (not (is_hostname host) || bad_port u.port))
    then err (
        value_error
          (lit "network_allowlist entries must be hostname[:port] values with ports in 1..65535"))
    else ok (endpoint host u.port)

unfoldable pub configured_network_endpoint : Python → Text → Result Text
unfolding configured_url
configured_network_endpoint P target = configured_url P (P.urlparse (lit "//" ++ P.lower target))

-- A `frozenset` is the list of its elements; the order is never read.
pub record PolicyConfig : Type 0 where
  pub repository : Text
  pub output : Text
  pub approved_request_ids : List Text
  pub network_allowlist : List Text
  pub allowed_executables : List Text
  pub max_cpus : Number
  pub max_memory_mb : Number
  pub max_pids : Number
  pub max_timeout_seconds : Number
  pub max_output_mb : Number
  pub max_output_files : Number
  pub max_temporary_mb : Number
  pub max_shared_memory_mb : Number
  pub repository_digest : Text
  pub authorization_context : Text
  pub approval_context_immutable : Bool

unbounded_item : Text → Bool
unbounded_item t = is_empty t || (ltb 8192 (length t) || has_char 0 t)

unbounded_set : List Text → Bool
unfolding unbounded_item
unbounded_set ts = ltb 10000 (length ts) || any unbounded_item ts

unbounded_text : Text → Bool
unbounded_text t = ltb 32768 (length t) || has_char 0 t

endpoints : Python → List Text → Result (List Text)
unfolding configured_network_endpoint
endpoints P [] = ok []
endpoints P (t ∷ ts) = do e ← configured_network_endpoint P t; es ← endpoints P ts; ok (e ∷ es)

existing : Option Text → Result Text
existing none = err (os_error (lit "repository"))
existing (some path) = ok path

-- `PolicyConfig.normalized`; the declared types of the fields are taken for granted.
unfoldable pub normalized : Python → PolicyConfig → Result PolicyConfig
unfolding unbounded_set unbounded_text endpoints existing
normalized P c = do
  raise_if (unbounded_set c.approved_request_ids)
      (value_error (lit "approved_request_ids must be a bounded frozenset of exact strings"))
  raise_if (unbounded_set c.network_allowlist)
      (value_error (lit "network_allowlist must be a bounded frozenset of exact strings"))
  raise_if (unbounded_set c.allowed_executables)
      (value_error (lit "allowed_executables must be a bounded frozenset of exact strings"))
  raise_if (unbounded_text c.repository_digest)
      (value_error (lit "repository_digest must be an exact bounded string"))
  raise_if (unbounded_text c.authorization_context)
      (value_error (lit "authorization_context must be an exact bounded string"))
  root ← existing (P.resolve_strict c.repository)
  allowlist ← endpoints P c.network_allowlist
  ok (record c { repository = root; output = P.resolve c.output; network_allowlist = allowlist })

-- One entry of `_numeric_config_error`.
abbrev is_int : Number → Bool
is_int (int n) = true
is_int _ = false

bad_ceiling : Option Float → Bool
bad_ceiling none = true
bad_ceiling (some f) = not (is_finite f) || le_float f zero_float

ceiling_error : Text → Bool → Number → Option Text
unfolding bad_ceiling
ceiling_error name integer_only n =
    if is_bool n || ((integer_only && not (is_int n)) || bad_ceiling (to_float n))
    then some (
        lit "Policy ceiling "
        ++ name
        ++ lit " must be a positive finite "
        ++ (if integer_only then lit "integer." else lit "number."))
    else none

first_error : List (Option Text) → Option Text
first_error [] = none
first_error (none ∷ rest) = first_error rest
first_error (some e ∷ rest) = some e

unfoldable pub numeric_config_error : PolicyConfig → Option Text
unfolding first_error ceiling_error
numeric_config_error c = first_error (
    ceiling_error (lit "max_cpus") false c.max_cpus
    ∷ ceiling_error (lit "max_memory_mb") true c.max_memory_mb
    ∷ ceiling_error (lit "max_pids") true c.max_pids
    ∷ ceiling_error (lit "max_timeout_seconds") true c.max_timeout_seconds
    ∷ ceiling_error (lit "max_output_mb") true c.max_output_mb
    ∷ ceiling_error (lit "max_output_files") true c.max_output_files
    ∷ ceiling_error (lit "max_temporary_mb") true c.max_temporary_mb
    ∷ ceiling_error (lit "max_shared_memory_mb") true c.max_shared_memory_mb
    ∷ [])
