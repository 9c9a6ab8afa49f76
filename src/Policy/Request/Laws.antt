-- ===== src/Policy/Request/Laws.antt =====
-- src/r_sandbox/policy/proposal_validation.py: `_canonical_request` and the object that it reads.
use r_sandbox.Prelude.{
  ℕ, ◌+◌, ◌≤◌, ◌≡◌, refl, ap, ap₂, ◌∙◌, false, Option, none, some, List, [], ◌∷◌, map, arith, Text,
  ltb, length, length-map, All, Raised, ok, ◌>>=◌, raise_if, invert, invert_guard, subst,
}
use r_sandbox.Models.Enums.{CapabilityCategory, RiskLevel}
use r_sandbox.Models.Records.{Number, bool, int, float, Evidence, CapabilityRequest}
use r_sandbox.Models.Value.{
  Value, values, values-items, items-values, line_value, evidence_value, request_value,
}
use r_sandbox.Policy.Checks.{max_evidence_items}
use r_sandbox.Policy.Request.{
  as_text, as_number, as_tuple, as_category, as_risk, as_line, canonical_evidence_item,
  canonical_evidence, canonical_request,
}

-- A line is absent, an `int` or a `bool`.
abbrev pub IsLine : Option Number → Type 0
IsLine (some (float f)) = ⊥
IsLine _ = Unit

pub record IsDetached (r : CapabilityRequest) : Type 0 where
  pub few : length r.evidence ≤ max_evidence_items
  pub lines : All (λ e. IsLine e.line) r.evidence

pub as_text-eq-ok : (v : Value) (e : Raised) {t : Text} → as_text v e ≡ ok t → v ≡ Value.text t
unfolding as_text
as_text-eq-ok (Value.text t) e h = cc
as_text-eq-ok _ e h = cc

pub as_tuple-eq-ok :
    (v : Value) (e : Raised) {vs : List Value} → as_tuple v e ≡ ok vs → v ≡ Value.tuple (values vs)
unfolding as_tuple
as_tuple-eq-ok (Value.tuple ws) e h = cc (values-items ws)
as_tuple-eq-ok _ e h = cc

as_line-eq-ok :
    (v : Value) (e : Raised) (l : Option Number)
    → as_line v e ≡ ok l
    → (v ≡ line_value l) × IsLine l
unfolding as_line
as_line-eq-ok Value.nothing e l h = ground arith
as_line-eq-ok (Value.num (bool b)) e l h = ground arith
as_line-eq-ok (Value.num (int n)) e l h = ground arith
as_line-eq-ok (Value.num (float f)) e l h = cc
as_line-eq-ok _ e l h = cc

as_line-line_value : (l : Option Number) (e : Raised) → IsLine l → as_line (line_value l) e ≡ ok l
unfolding as_line
as_line-line_value none e h = refl
as_line-line_value (some (bool b)) e h = refl
as_line-line_value (some (int n)) e h = refl
as_line-line_value (some (float f)) e h = absurd h

item-eq-ok :
    (field : Text) (i : ℕ) (v : Value) (e : Evidence)
    → canonical_evidence_item field i v ≡ ok e
    → (v ≡ evidence_value e) × IsLine e.line
unfolding canonical_evidence_item
item-eq-ok field i (Value.evidence s d l) e h = invert h λ s' ps h1. invert h1 λ d' pd h2.
    invert h2 λ l' pl h3.
      let es = as_text-eq-ok s _ ps in
      let ed = as_text-eq-ok d _ pd in
      let (el, line) = as_line-eq-ok l _ l' pl in (ground (arith, es, ed, el), ground (arith, line))
item-eq-ok field i _ e h = cc

canonical_evidence-eq-ok :
    (field : Text) (i : ℕ) (vs : List Value) (es : List Evidence)
    → canonical_evidence field i vs ≡ ok es
    → (vs ≡ map evidence_value es) × All (λ e. IsLine e.line) es
unfolding canonical_evidence
canonical_evidence-eq-ok field i [] [] h = (refl, tt)
canonical_evidence-eq-ok field i [] (e ∷ es) h = cc
canonical_evidence-eq-ok field i (v ∷ vs) es h = invert h λ e pe h1. invert h1 λ rest pr h2.
    let (ev, line) = item-eq-ok field i v e pe in
    let (evs, lines) = canonical_evidence-eq-ok field (i + 1) vs rest pr in
    let same_list : e ∷ rest ≡ es = cc in
    subst (λ l. (v ∷ vs ≡ map evidence_value l) × All (λ e. IsLine e.line) l) same_list
      (ap₂ (λ x xs. x ∷ xs) ev evs, (line, lines))

canonical_evidence-map :
    (field : Text) (i : ℕ) (es : List Evidence)
    → All (λ e. IsLine e.line) es
    → canonical_evidence field i (map evidence_value es) ≡ ok es
unfolding canonical_evidence canonical_evidence_item as_text ◌>>=◌
canonical_evidence-map field i [] h = refl
canonical_evidence-map field i (e ∷ es) h =
    rw (as_line-line_value e.line _ h.0, canonical_evidence-map field (i + 1) es h.1)

as_category-eq-ok :
    (v : Value) (e : Raised) {c : CapabilityCategory}
    → as_category v e ≡ ok c
    → v ≡ Value.category c
unfolding as_category
as_category-eq-ok (Value.category c) e h = cc
as_category-eq-ok _ e h = cc

as_risk-eq-ok : (v : Value) (e : Raised) {r : RiskLevel} → as_risk v e ≡ ok r → v ≡ Value.risk r
unfolding as_risk
as_risk-eq-ok (Value.risk r) e h = cc
as_risk-eq-ok _ e h = cc

as_number-eq-ok : (v : Value) (e : Raised) {n : Number} → as_number v e ≡ ok n → v ≡ Value.num n
unfolding as_number
as_number-eq-ok (Value.num n) e h = cc
as_number-eq-ok _ e h = cc

pub canonical_request-eq-ok :
    (v : Value) (field : Text) (e : Raised) (r : CapabilityRequest)
    → canonical_request v field e ≡ ok r
    → (v ≡ request_value r) × IsDetached r
unfolding canonical_request
canonical_request-eq-ok (Value.capability_request i c a t j n k es) field e r h =
    invert h λ c' pc h1. invert h1 λ k' pk h2. invert h2 λ i' pi h3. invert h3 λ a' pa h4.
      invert h4 λ t' pt h5. invert h5 λ j' pj h6. invert h6 λ n' pn h7. invert h7 λ vs pv h8.
        invert_guard _ _ h8 λ few h9. invert h9 λ es' pe h10.
          let (evs, lines) = canonical_evidence-eq-ok field 0 vs es' pe in
          let whole = as_tuple-eq-ok es _ pv in
          let fits : length vs ≤ max_evidence_items = ground (arith, few) in
          let size : length vs ≡ length es' = ap length evs ∙ length-map evidence_value es' in
          (
            ground (
              arith,
              as_category-eq-ok c _ pc,
              as_risk-eq-ok k _ pk,
              as_text-eq-ok i _ pi,
              as_text-eq-ok a _ pa,
              as_text-eq-ok t _ pt,
              as_text-eq-ok j _ pj,
              as_number-eq-ok n _ pn,
              whole,
              evs,
            ),
            ground (arith, size, fits, lines),
          )
canonical_request-eq-ok _ field e r h = cc

pub canonical_request-request_value :
    (r : CapabilityRequest) (field : Text) (e : Raised)
    → IsDetached r
    → canonical_request (request_value r) field e ≡ ok r
unfolding canonical_request as_text as_category as_risk as_number as_tuple ◌>>=◌ raise_if
canonical_request-request_value r field e h =
    let fits : ltb max_evidence_items (length r.evidence) ≡ false = ground (arith, h.few) in
    rw (items-values, length-map, fits, canonical_evidence-map field 0 r.evidence h.lines)
