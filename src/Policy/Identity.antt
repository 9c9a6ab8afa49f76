-- ===== src/Policy/Identity.antt =====
-- src/r_sandbox/policy/identity.py: the canonical id of a capability request. The id is a digest
-- of a JSON text, whose writer is `json.dumps` with sorted keys, ASCII only, and no blanks.
use r_sandbox.Prelude.{
  ℕ, ◌+◌, ◌-◌, ◌/◌, ◌%◌, not, ◌&&◌, ◌||◌, Option, none, some, List, [], ◌∷◌, ◌++◌, Text, lit, leb,
  ltb, ◌==◌, if◌then◌else◌, length, take, is_empty, decimal, strip, utf8_encodable, has_char,
  Raised, value_error, Result, ok, err, ◌>>=◌, ◌>>◌, raise_if,
}
use r_sandbox.Prelude.Int.{pos}
use r_sandbox.Prelude.Float.{Float, is_finite}
use r_sandbox.Python.{Python}
use r_sandbox.Models.Enums.{CapabilityCategory, RiskLevel, category_value, risk_value}
use r_sandbox.Models.Records.{Number, int, Evidence, CapabilityRequest}
use r_sandbox.Policy.Checks.{to_float, is_bool}
use r_sandbox.Policy.Request.{is_bad_line}

unfoldable pub hex_digit : ℕ → ℕ
hex_digit d = if ltb d 10 then 48 + d else 87 + d

-- "\\u" and four lower-case hexadecimal digits.
unfoldable pub unicode_escape : ℕ → Text
unfolding hex_digit
unicode_escape c =
    92
    ∷ b'u'
    ∷ hex_digit (c / 4096)
    ∷ hex_digit (c / 256 % 16)
    ∷ hex_digit (c / 16 % 16)
    ∷ hex_digit (c % 16)
    ∷ []

-- The characters that `json` writes as themselves, the two-character escapes, and the rest, by
-- one escape or by two for a code point above the basic plane.
unfoldable pub json_char : ℕ → Text
unfolding unicode_escape
json_char c =
    if c == 34
    then 92 ∷ 34 ∷ []
    else if c == 92
    then 92 ∷ 92 ∷ []
    else if c == 10
    then 92 ∷ b'n' ∷ []
    else if c == 13
    then 92 ∷ b'r' ∷ []
    else if c == 9
    then 92 ∷ b't' ∷ []
    else if c == 12
    then 92 ∷ b'f' ∷ []
    else if c == 8
    then 92 ∷ b'b' ∷ []
    else if leb 32 c && leb c 126
    then c ∷ []
    else if ltb c 65536
    then unicode_escape c
    else unicode_escape (0xD800 + (c - 65536) / 1024)
      ++ unicode_escape (0xDC00 + (c - 65536) % 1024)

unfoldable pub json_chars : Text → Text
unfolding json_char
json_chars [] = []
json_chars (c ∷ t) = json_char c ++ json_chars t

unfoldable pub json_string : Text → Text
unfolding json_chars
json_string t = 34 ∷ (json_chars t ++ 34 ∷ [])

-- `json.dumps(line)`; a line that reaches it is null or a positive `int`.
unfoldable pub json_line : Option Number → Text
json_line (some (int (pos n))) = decimal n
json_line _ = lit "null"

unfoldable pub json_evidence_item : Evidence → Text
unfolding json_string json_line
json_evidence_item e =
    lit "{\"detail\":"
    ++ json_string e.detail
    ++ lit ",\"line\":"
    ++ json_line e.line
    ++ lit ",\"source\":"
    ++ json_string e.source
    ++ lit "}"

more_evidence : List Evidence → Text
unfolding json_evidence_item
more_evidence [] = lit "]"
more_evidence (e ∷ es) = lit "," ++ json_evidence_item e ++ more_evidence es

unfoldable pub json_evidence : List Evidence → Text
unfolding json_evidence_item more_evidence
json_evidence [] = lit "[]"
json_evidence (e ∷ es) = lit "[" ++ json_evidence_item e ++ more_evidence es

-- The payload of `capability_request_id`, in the order of its sorted keys.
pub record Payload : Type 0 where
  pub action : Text
  pub authorization_context : Text
  pub category : CapabilityCategory
  pub confidence_hex : Text
  pub evidence : List Evidence
  pub goal : Text
  pub justification : Text
  pub repository : Text
  pub repository_digest : Text
  pub risk : RiskLevel
  pub target : Text

unfoldable pub material : Payload → Text
unfolding json_string json_evidence
material p =
    lit "{\"action\":"
    ++ json_string p.action
    ++ lit ",\"authorization_context\":"
    ++ json_string p.authorization_context
    ++ lit ",\"category\":"
    ++ json_string (category_value p.category)
    ++ lit ",\"confidence_hex\":"
    ++ json_string p.confidence_hex
    ++ lit ",\"evidence\":"
    ++ json_evidence p.evidence
    ++ lit ",\"goal\":"
    ++ json_string p.goal
    ++ lit ",\"justification\":"
    ++ json_string p.justification
    ++ lit ",\"repository\":"
    ++ json_string p.repository
    ++ lit ",\"repository_digest\":"
    ++ json_string p.repository_digest
    ++ lit ",\"risk\":"
    ++ json_string (risk_value p.risk)
    ++ lit ",\"target\":"
    ++ json_string p.target
    ++ lit "}"

-- `_require_utf8_text` with no bounds enforced.
unfoldable pub require_utf8 : Text → Text → Result (Unit {0})
require_utf8 t field =
    raise_if (not (utf8_encodable t))
      (value_error (field ++ lit " must be valid UTF-8 text without lone surrogates"))

-- `_require_utf8_text` with the bounds enforced.
unfoldable pub require_bounded_utf8 : Text → Text → ℕ → Result (Unit {0})
unfolding require_utf8
require_bounded_utf8 t field maximum = do
  raise_if (is_empty t || ltb maximum (length t))
      (value_error (field ++ lit " must be bounded text"))
  require_utf8 t field

confidence_error : Raised
confidence_error = value_error (lit "capability confidence must be a finite real number")

finite_or_error : Option Float → Result Float
unfolding confidence_error
finite_or_error none = err confidence_error
finite_or_error (some f) = if is_finite f then ok f else err confidence_error

require_evidence : ℕ → List Evidence → Result (Unit {0})
unfolding require_utf8
require_evidence i [] = ok tt
require_evidence i (e ∷ es) = do
  require_utf8 e.source (lit "capability evidence[" ++ decimal i ++ lit "] source")
  require_utf8 e.detail (lit "capability evidence[" ++ decimal i ++ lit "] detail")
  raise_if (is_bad_line e.line)
      (value_error (lit "capability evidence line must be a positive bounded integer or null"))
  require_evidence (i + 1) es

-- `capability_request_id` on typed arguments: the request's fields, and what the id is bound to.
unfoldable pub capability_request_id :
    Python
    → (repository goal : Text) → CapabilityRequest
    → (repository_digest authorization_context : Text) → Result Text
unfolding require_utf8 confidence_error finite_or_error require_evidence material
capability_request_id P repository goal r digest context = do
  require_utf8 goal (lit "capability goal")
  require_utf8 r.action (lit "capability action")
  require_utf8 r.target (lit "capability target")
  require_utf8 digest (lit "repository digest")
  require_utf8 r.justification (lit "capability justification")
  require_utf8 context (lit "authorization context")
  raise_if (is_bool r.confidence) confidence_error
  f ← finite_or_error (to_float r.confidence)
  raise_if (ltb 128 (length r.evidence)) (value_error (lit "capability evidence exceeds 128 items"))
  require_evidence 0 r.evidence
  ok (
      lit "cap-"
      ++ take 32 (
          P.sha256_hexdigest (
            material (record {
              action = r.action;
              authorization_context = context;
              category = r.category;
              confidence_hex = P.float_hex f;
              evidence = r.evidence;
              goal = strip goal;
              justification = r.justification;
              repository = P.resolve repository;
              repository_digest = digest;
              risk = r.risk;
              target = r.target;
            }))))

-- `capability_authorization_context`
unfoldable pub capability_authorization_context : Text → Result Text
unfolding require_bounded_utf8 json_string
capability_authorization_context image = do
  require_bounded_utf8 image (lit "container image") 255
  raise_if (has_char 0 image) (value_error (lit "container image must be bounded text"))
  ok (
      lit "{\"backend\":\"docker-local-linux-amd64-v1\",\"image\":"
      ++ json_string image
      ++ lit ",\"policy\":\"r-sandbox-policy-v1\"}")
