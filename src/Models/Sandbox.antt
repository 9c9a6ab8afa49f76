-- ===== src/Models/Sandbox.antt =====
-- src/r_sandbox/models.py: `SandboxSpec` and the checks of its constructor, on fields of the declared
-- types.
use r_sandbox.Prelude.{
  ℕ, Bool, true, false, not, ◌&&◌, ◌||◌, List, ◌++◌, Text, lit, ltb, length, is_empty, any,
  has_char, value_error, type_error, Result, ok, ◌>>◌, raise_if, invert, ok-injective, ◌≡◌,
}
use r_sandbox.Models.Limits.{ResourceLimits}

pub record SandboxSpec : Type 0 where
  pub repository : Text
  pub output : Text
  pub image : Text
  pub argv : List Text
  pub source_repository : Text
  pub snapshot_digest : Text
  pub network_targets : List Text
  pub environment : List (Text × Text)
  pub devices : List Text
  pub limits : ResourceLimits
  pub read_only_root : Bool
  pub drop_capabilities : Bool

require_spec_text : Text → Text → Bool → Result (Unit {0})
require_spec_text name t allow_empty =
    raise_if ((not allow_empty && is_empty t) || (has_char 0 t || ltb 32768 (length t)))
      (value_error (lit "sandbox " ++ name ++ lit " is not bounded text"))

unbounded_spec_item : Text → Bool
unbounded_spec_item t = is_empty t || (ltb 8192 (length t) || has_char 0 t)

require_spec_texts : Text → List Text → ℕ → Result (Unit {0})
unfolding unbounded_spec_item
require_spec_texts name ts maximum = do
  raise_if (ltb maximum (length ts))
      (type_error (lit "sandbox " ++ name ++ lit " must be a bounded exact tuple"))
  raise_if (any unbounded_spec_item ts)
      (type_error (lit "sandbox " ++ name ++ lit " must contain exact bounded strings"))

-- `SandboxSpec(...)`
unfoldable pub sandbox_spec : SandboxSpec → Result SandboxSpec
unfolding require_spec_text require_spec_texts unbounded_spec_item
sandbox_spec s = do
  require_spec_text (lit "repository") s.repository false
  require_spec_text (lit "output") s.output false
  require_spec_text (lit "image") s.image false
  require_spec_text (lit "source_repository") s.source_repository true
  require_spec_text (lit "snapshot_digest") s.snapshot_digest true
  raise_if (is_empty s.argv) (type_error (lit "sandbox argv must be a bounded exact tuple"))
  require_spec_texts (lit "argv") s.argv 256
  require_spec_texts (lit "network_targets") s.network_targets 256
  require_spec_texts (lit "devices") s.devices 16
  raise_if (ltb 256 (length s.environment))
      (type_error (lit "sandbox environment must be a bounded exact tuple"))
  raise_if (any (λ e. unbounded_spec_item e.0 || unbounded_spec_item e.1) s.environment)
      (type_error (lit "sandbox environment entries must be exact string pairs"))
  ok s

-- The constructor changes no field.
pub sandbox_spec-eq-ok : (s r : SandboxSpec) → sandbox_spec s ≡ ok r → s ≡ r
unfolding sandbox_spec
sandbox_spec-eq-ok s r h = invert h λ _ p1 h1. invert h1 λ _ p2 h2. invert h2 λ _ p3 h3.
    invert h3 λ _ p4 h4. invert h4 λ _ p5 h5. invert h5 λ _ p6 h6. invert h6 λ _ p7 h7.
      invert h7 λ _ p8 h8.
        invert h8 λ _ p9 h9. invert h9 λ _ q1 k1. invert k1 λ _ q2 k2. ok-injective _ _ k2
