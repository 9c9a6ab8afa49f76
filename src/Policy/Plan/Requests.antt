-- ===== src/Policy/Plan/Requests.antt =====
-- src/r_sandbox/policy/proposal_validation.py: what a successful check of a text, an attempt or the
-- requests of a step has established.
use r_sandbox.Prelude.{
  ℕ, ◌+◌, ◌≡◌, refl, ap, ap₂, subst, Option, none, some, List, [], ◌∷◌, map, arith, Text, All, ok,
  invert, invert_guard,
}
use r_sandbox.Prelude.Int.{ℤ, pos, ◌≤ℤ◌}
use r_sandbox.Python.{Python}
use r_sandbox.Models.Records.{int, float, bool, CapabilityRequest}
use r_sandbox.Models.Value.{Value, request_value}
use r_sandbox.Policy.Checks.{max_attempt}
use r_sandbox.Policy.Checks.Laws.{IsBounded, IsBounded-text_error_of}
use r_sandbox.Policy.Request.Laws.{IsDetached, canonical_request-eq-ok}
use r_sandbox.Policy.Plan.{
  ValidatedRequest, text_or_error, require_text, require_texts, as_attempt, validated,
  validate_requests,
}
use r_sandbox.Policy.Plan.Contract.{Fresh, ids}

text_or_error-eq-ok :
    (t : Text) (e : Option Text) {u : Text} → text_or_error t e ≡ ok u → (e ≡ none) × (t ≡ u)
unfolding text_or_error
text_or_error-eq-ok t none h = (refl, cc)
text_or_error-eq-ok t (some e) h = cc

pub require_text-eq-ok :
    (v : Value) (field : Text) (maximum : ℕ) (t : Text)
    → require_text v field maximum ≡ ok t
    → (v ≡ Value.text t) × IsBounded maximum t
unfolding require_text
require_text-eq-ok (Value.text u) field maximum t h =
    let (clean, same_text) = text_or_error-eq-ok u _ h in
    (
      ap Value.text same_text,
      subst (IsBounded maximum) same_text (IsBounded-text_error_of u field maximum clean),
    )
require_text-eq-ok _ field maximum t h = cc

pub require_texts-eq-ok :
    (field : Text) (maximum i : ℕ) (vs : List Value) (ts : List Text)
    → require_texts field maximum i vs ≡ ok ts
    → (vs ≡ map Value.text ts) × All (IsBounded maximum) ts
unfolding require_texts
require_texts-eq-ok field maximum i [] [] h = (refl, tt)
require_texts-eq-ok field maximum i [] (t ∷ ts) h = cc
require_texts-eq-ok field maximum i (v ∷ vs) ts h = invert h λ u pu h1. invert h1 λ us pus h2.
    let (ev, bounded) = require_text-eq-ok v _ maximum u pu in
    let (evs, all_bounded) = require_texts-eq-ok field maximum (i + 1) vs us pus in
    let whole : u ∷ us ≡ ts = cc in
    subst (λ l. (v ∷ vs ≡ map Value.text l) × All (IsBounded maximum) l) whole
      (ap₂ (λ x xs. x ∷ xs) ev evs, (bounded, all_bounded))

pub as_attempt-eq-ok :
    (v : Value) (n : ℤ)
    → as_attempt v ≡ ok n
    → (v ≡ Value.num (int n)) × (pos 1 ≤ℤ n) × (n ≤ℤ pos max_attempt)
unfolding as_attempt
as_attempt-eq-ok (Value.num (int m)) n h = ground arith
as_attempt-eq-ok (Value.num (bool m)) n h = cc
as_attempt-eq-ok (Value.num (float m)) n h = cc
as_attempt-eq-ok _ n h = cc

abbrev pub requests_of : List ValidatedRequest → List CapabilityRequest
requests_of = map (λ r. r.request)

-- The loop over the capabilities of a step.
pub record Checked (P : Python) (seen : List Text) (vs : List Value) (rs : List ValidatedRequest)
    : Type 0 where
  pub copied : vs ≡ map request_value (requests_of rs)
  pub detached : All IsDetached (requests_of rs)
  pub fresh : Fresh seen (ids (requests_of rs))
  pub errors : rs ≡ map (validated P) (requests_of rs)

pub validate_requests-eq-ok :
    (P : Python) (place : Text) (i : ℕ) (seen seen' : List Text) (vs : List Value)
    (rs : List ValidatedRequest)
    → validate_requests P place i seen vs ≡ ok (seen', rs)
    → Checked P seen vs rs
unfolding validate_requests
validate_requests-eq-ok P place i seen seen' [] [] h = record {
  copied = refl;
  detached = tt;
  fresh = tt;
  errors = refl;
}
validate_requests-eq-ok P place i seen seen' [] (r ∷ rs) h = cc
validate_requests-eq-ok P place i seen seen' (v ∷ vs) rs h = invert h λ r pr h1.
    invert_guard _ _ h1 λ new h2. invert h2 λ (after, rest) prest h3.
      let (ev, detached) = canonical_request-eq-ok v _ _ r pr in
      let ih = validate_requests-eq-ok P place (i + 1) (r.request_id ∷ seen) after vs rest prest in
      let whole : validated P r ∷ rest ≡ rs = cc in
      subst (Checked P seen (v ∷ vs)) whole (record {
        copied = ap₂ (λ x xs. x ∷ xs) ev ih.copied;
        detached = (detached, ih.detached);
        fresh = (new, ih.fresh);
        errors = ap (λ xs. validated P r ∷ xs) ih.errors;
      })
