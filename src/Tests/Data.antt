-- ===== src/Tests/Data.antt =====
-- A host whose library services are small concrete functions, and the inputs of the tests.
use r_sandbox.Prelude.{
  ◌+◌, true, false, Option, none, some, [], ◌∷◌, ◌++◌, map, Text, lit, leb, ◌&&◌, if◌then◌else◌,
  drop, same, has_infix, split, starts_with, one_of, has_char, utf8_encodable, decimal, strip,
  rstrip_char, is_lower_hex, is_alphanumeric, replace_char, ◌>>=◌, raise_if,
}
use r_sandbox.Prelude.Int.{pos}
use r_sandbox.Prelude.Float.{
  one_float, zero_float, le_float, lt_float, is_finite, is_integer, float_of_int, exact, threshold,
}
use r_sandbox.Prelude.Paths.{posix_path, path_text, has_part, is_absolute}
use r_sandbox.Python.{Python, Url}
use r_sandbox.Models.Enums.{network, low, category_value, risk_value, outcome_value}
use r_sandbox.Models.Records.{int, float, CapabilityRequest, ExecutionPlan}
use r_sandbox.Policy.Checks.{
  text_error_of, valid_confidence, is_request_id, host_of, has_extras, canonical_target,
}
use r_sandbox.Policy.Plan.{validate_execution_plan, canonical_authorization}
use r_sandbox.Policy.Identity.{capability_request_id}
use r_sandbox.Policy.Config.{PolicyConfig, is_hostname, endpoint}
use r_sandbox.Policy.Handlers.{
  read_actions, output_actions, sensitive_names, safe_executables, whole_actions, below_threshold,
}
use r_sandbox.Policy.Engine.{authorize}

-- What a run of the policy computes with.
unfoldable pub policy_run : Unit {0}
unfolding validate_execution_plan canonical_authorization authorize capability_request_id
    text_error_of valid_confidence is_request_id host_of has_extras canonical_target is_hostname
    endpoint read_actions output_actions sensitive_names safe_executables whole_actions
    below_threshold lit same one_of has_char utf8_encodable decimal strip rstrip_char is_lower_hex
    is_alphanumeric replace_char split starts_with has_infix posix_path path_text has_part
    is_absolute le_float lt_float is_finite is_integer float_of_int exact threshold one_float
    zero_float category_value risk_value outcome_value ◌>>=◌ raise_if
policy_run = tt

abbrev pub ascii_lower : Text → Text
ascii_lower = map (λ c. if leb b'A' c && leb c b'Z' then c + 32 else c)

-- A target with no port, user, path, query or fragment.
abbrev pub plain_url : Text → Option Url
plain_url t = some (record {
  hostname = some (drop 2 t);
  port = none;
  username = none;
  password = none;
  path = [];
  query = [];
  fragment = [];
})

abbrev pub sixteen : Text
sixteen = lit "0123456789abcdef"

abbrev pub host : Python
host = record {
  lower = ascii_lower;
  urlparse = plain_url;
  parse_float = λ t. none;
  add_float = λ a b. a;
  float_hex = λ f. [];
  sha256_hexdigest = λ m. sixteen ++ sixteen;
  search = has_infix;
  resolve = λ t. t;
  resolve_strict = some;
  is_internal_address = λ t. false;
  is_word = is_alphanumeric;
  repr = λ t. t;
  format_g = λ f. [];
}

abbrev pub digest_id : Text
digest_id = lit "cap-0123456789abcdef0123456789abcdef"

abbrev pub download : CapabilityRequest
download = record {
  request_id = digest_id;
  category = network;
  action = lit "download";
  target = lit "data.example.org";
  justification = lit "fetch";
  confidence = float one_float;
  risk = low;
  evidence =
      record { source = lit "train.py"; detail = lit "urlopen"; line = some (int (pos 3)) } ∷ [];
}

abbrev pub one_step : CapabilityRequest → ExecutionPlan
one_step r = record {
  goal = lit "train";
  summary = lit "run";
  steps =
      record {
        step_id = lit "execute-entrypoint-1";
        purpose = lit "train";
        argv = lit "python" ∷ lit "train.py" ∷ [];
        cwd = lit "/workspace";
        capabilities = r ∷ [];
      }
      ∷ [];
  assumptions = lit "untrusted" ∷ [];
  attempt = pos 1;
}

abbrev pub config : PolicyConfig
config = record {
  repository = lit "/repo";
  output = lit "/out";
  approved_request_ids = digest_id ∷ [];
  network_allowlist = [];
  allowed_executables = lit "python" ∷ [];
  max_cpus = int (pos 2);
  max_memory_mb = int (pos 4096);
  max_pids = int (pos 256);
  max_timeout_seconds = int (pos 1800);
  max_output_mb = int (pos 4096);
  max_output_files = int (pos 50000);
  max_temporary_mb = int (pos 512);
  max_shared_memory_mb = int (pos 512);
  repository_digest = [];
  authorization_context = [];
  approval_context_immutable = true;
}
