-- ===== src/Policy/Checks/Laws.antt =====
-- src/r_sandbox/policy/proposal_validation.py: what the checks of single values decide.
use r_sandbox.Prelude.{
  ℕ, ◌≤◌, ◌≡◌, refl, ◌≢◌, true, false, Option, none, some, [], ◌∷◌, arith, Text, ltb, length, All,
  has_char, utf8_encodable, is_surrogate,
}
use r_sandbox.Policy.Checks.{text_error_of, or_error}

-- A code point that a text of the contract may hold: not NUL, and not a surrogate.
abbrev pub IsScalar : ℕ → Type 0
IsScalar c = (c ≢ 0) × (is_surrogate c ≡ false)

-- A bounded text, described without the code: 1 to `maximum` scalar values, none of them NUL.
pub record IsBounded (maximum : ℕ) (t : Text) : Type 0 where
  pub some_text : 1 ≤ length t
  pub short : length t ≤ maximum
  pub scalars : All IsScalar t

scalars_of_tests : (t : Text) → has_char 0 t ≡ false → utf8_encodable t ≡ true → All IsScalar t
unfolding has_char utf8_encodable
scalars_of_tests [] h k = tt
scalars_of_tests (c ∷ t) h k =
    ((λ e. ground arith, ground arith), scalars_of_tests t (ground arith) (ground arith))

tests_of_scalars : (t : Text) → All IsScalar t → (has_char 0 t ≡ false) × (utf8_encodable t ≡ true)
unfolding has_char utf8_encodable
tests_of_scalars [] h = (refl, refl)
tests_of_scalars (c ∷ t) (h, k) = ground (arith, tests_of_scalars t k, h.0)

pub IsBounded-text_error_of :
    (t field : Text) (maximum : ℕ) → text_error_of t field maximum ≡ none → IsBounded maximum t
unfolding text_error_of
IsBounded-text_error_of [] field maximum h = cc
IsBounded-text_error_of (c ∷ t) field maximum h = record {
  some_text = omega arith;
  short = ground arith;
  scalars = scalars_of_tests (c ∷ t) (ground arith) (ground arith);
}

pub text_error_of-IsBounded :
    (t field : Text) (maximum : ℕ) → IsBounded maximum t → text_error_of t field maximum ≡ none
unfolding text_error_of
text_error_of-IsBounded [] field maximum h = absurd (omega (arith, h.some_text))
text_error_of-IsBounded (c ∷ t) field maximum h =
    let tests = tests_of_scalars (c ∷ t) h.scalars in
    let fits : ltb maximum (length (c ∷ t)) ≡ false = ground (arith, h.short) in
    rw (fits, tests.0, tests.1)

pub or_error-eq-none : (a b : Option Text) → or_error a b ≡ none → (a ≡ none) × (b ≡ none)
or_error-eq-none none b h = (refl, h)
or_error-eq-none (some e) b h = cc
