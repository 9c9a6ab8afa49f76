-- ===== src/Models/Payload/Laws.antt =====
-- src/r_sandbox/models.py: what a serialized report holds.
use r_sandbox.Prelude.{
  ◌⊎◌, ℕ, ◌≡◌, refl, sym, ap, ap₂, ◌∙◌, true, false, not, ◌||◌, List, [], ◌∷◌, Text, any, arith,
  utf8_encodable, is_surrogate, Bool-cases, inl, inr, any-append, ltb, ◌/◌, ◌%◌,
}
use r_sandbox.Models.Enums.{target_telemetry}
use r_sandbox.Models.Records.{RuntimeEvent, ExecutionResult}
use r_sandbox.Policy.Identity.{hex_digit, unicode_escape}
use r_sandbox.Models.Payload.{
  utf8_safe_report_text, stream_summary, event_payload, redact, event_payloads, execution_payload,
}

hex_digit-is_surrogate : (d : ℕ) → ltb d 16 ≡ true → is_surrogate (hex_digit d) ≡ false
unfolding hex_digit is_surrogate
hex_digit-is_surrogate d h = ground arith

high_digit : (n : ℕ) → is_surrogate n ≡ true → ltb (n / 4096) 16 ≡ true
unfolding is_surrogate
high_digit n h = ground arith

mark-is_surrogate : is_surrogate 92 || (is_surrogate b'u' || false) ≡ false
unfolding is_surrogate
mark-is_surrogate = refl

-- The escape of a surrogate holds none.
unicode_escape-any : (c : ℕ) → is_surrogate c ≡ true → any is_surrogate (unicode_escape c) ≡ false
unfolding unicode_escape
unicode_escape-any c h =
    let a = hex_digit-is_surrogate (c / 4096) (high_digit c h) in
    let b = hex_digit-is_surrogate (c / 256 % 16) (ground arith) in
    let d = hex_digit-is_surrogate (c / 16 % 16) (ground arith) in
    let e = hex_digit-is_surrogate (c % 16) (ground arith) in rw (a, b, d, e) mark-is_surrogate

-- An escaped text can be encoded in UTF-8.
pub utf8_safe_report_text-utf8_encodable :
    (t : Text) → utf8_encodable (utf8_safe_report_text t) ≡ true
unfolding utf8_encodable utf8_safe_report_text
utf8_safe_report_text-utf8_encodable t = ap not (no_surrogate t)
  where
    no_surrogate : (u : Text) → any is_surrogate (utf8_safe_report_text u) ≡ false
    no_surrogate [] = refl
    no_surrogate (c ∷ u) = elim (Bool-cases (is_surrogate c)) [
      | inl lone ↦
          rw
            (
              lone,
              any-append is_surrogate (unicode_escape c) (utf8_safe_report_text u),
              unicode_escape-any c lone,
            )
            (no_surrogate u)
      | inr plain ↦ rw (plain, plain) (no_surrogate u)
    ]

-- A text that can be encoded is left as it is.
pub utf8_safe_report_text-eq : (t : Text) → utf8_encodable t ≡ true → utf8_safe_report_text t ≡ t
unfolding utf8_encodable utf8_safe_report_text
utf8_safe_report_text-eq [] h = refl
utf8_safe_report_text-eq (c ∷ t) h = elim (Bool-cases (is_surrogate c)) [
  | inl lone ↦ absurd (cc (rw lone at h))
  | inr plain ↦ rw plain (ap (λ x. c ∷ x) (utf8_safe_report_text-eq t (rw plain at h)))
]

-- The same event, or two events of the target that differ in target and detail alone.
abbrev pub SameVisible : RuntimeEvent → RuntimeEvent → Type 0
SameVisible a b =
    (a ≡ b)
    ⊎ ((a.source ≡ target_telemetry) × (b ≡ record a { target = b.target; detail = b.detail }))

abbrev pub AllSameVisible : List RuntimeEvent → List RuntimeEvent → Type 0
AllSameVisible [] [] = Unit
AllSameVisible (a ∷ more) (b ∷ bs) = SameVisible a b × AllSameVisible more bs
AllSameVisible _ _ = ⊥

redact-hidden :
    (a : RuntimeEvent) (target detail : Text)
    → a.source ≡ target_telemetry
    → redact a (event_payload a)
      ≡ redact
          (record a { target = target; detail = detail })
          (event_payload (record a { target = target; detail = detail }))
unfolding redact event_payload
redact-hidden a target detail e = rw (e) refl

redact-SameVisible :
    (a b : RuntimeEvent) → SameVisible a b → redact a (event_payload a) ≡ redact b (event_payload b)
redact-SameVisible a b (inl e) = ap (λ x. redact x (event_payload x)) e
redact-SameVisible a b (inr (own, e)) =
    redact-hidden a b.target b.detail own ∙ ap (λ x. redact x (event_payload x)) (sym e)

event_payloads-SameVisible :
    (xs ys : List RuntimeEvent) → AllSameVisible xs ys → event_payloads xs ≡ event_payloads ys
unfolding event_payloads
event_payloads-SameVisible [] [] h = refl
event_payloads-SameVisible (a ∷ more) (b ∷ bs) h =
    ap₂ (λ x xs. x ∷ xs) (redact-SameVisible a b h.0) (event_payloads-SameVisible more bs h.1)
event_payloads-SameVisible [] (b ∷ bs) h = absurd h
event_payloads-SameVisible (a ∷ more) [] h = absurd h

-- What the target printed, and the targets and details of the events that it reported, do not
-- reach a serialized execution: runs that differ in them alone, with streams of the same size,
-- have the same payload.
pub execution_payload-SameVisible :
    (r : ExecutionResult) (out error : Text) (events : List RuntimeEvent)
    → stream_summary r.stdout ≡ stream_summary out
    → stream_summary r.stderr ≡ stream_summary error
    → AllSameVisible r.events events
    → execution_payload r
      ≡ execution_payload (record r { stdout = out; stderr = error; events = events })
unfolding execution_payload
execution_payload-SameVisible r out error events o e h =
    rw (o, e, event_payloads-SameVisible r.events events h) refl
