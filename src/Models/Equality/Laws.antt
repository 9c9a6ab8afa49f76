-- ===== src/Models/Equality/Laws.antt =====
-- src/r_sandbox/models.py: what `==` of two executions says of their fields.
use r_sandbox.Prelude.{
  ◌≡◌, refl, ap, ap₂, and_true, same→eq, same_texts, ==_iff, Text, [], ◌∷◌, Bool, true, false,
  Option, none, some, List, lit, same,
}
use r_sandbox.Prelude.Int.{ℤ, pos, negsuc}
use r_sandbox.Models.Enums.{
  AgentOutcome, analyzed, awaiting_approval, planned, succeeded, failed, blocked,
  runtime_unavailable, RuntimeEvidenceSource, target_telemetry, supervisor, independent_observer,
  source_text, outcome_value,
}
use r_sandbox.Models.Records.{RuntimeEvent, ExecutionResult}
use r_sandbox.Models.Equality.{same_number, same_flag, same_exit, same_events, same_result}

-- Equal executions; the durations are equal as numbers.
pub record IsSame (a b : ExecutionResult) : Type 0 where
  pub status : a.status ≡ b.status
  pub exit_code : a.exit_code ≡ b.exit_code
  pub stdout : a.stdout ≡ b.stdout
  pub stderr : a.stderr ≡ b.stderr
  pub duration_seconds : same_number a.duration_seconds b.duration_seconds ≡ true
  pub events : a.events ≡ b.events
  pub command_preview : a.command_preview ≡ b.command_preview

pub outcome_value-injective :
    (a b : AgentOutcome) → same (outcome_value a) (outcome_value b) ≡ true → a ≡ b
unfolding same lit outcome_value
outcome_value-injective analyzed analyzed h = refl
outcome_value-injective planned planned h = refl
outcome_value-injective succeeded succeeded h = refl
outcome_value-injective failed failed h = refl
outcome_value-injective blocked blocked h = refl
outcome_value-injective runtime_unavailable runtime_unavailable h = refl
outcome_value-injective awaiting_approval awaiting_approval h = refl
outcome_value-injective a b h = cc h

same_texts-eq : (a b : List Text) → same_texts a b ≡ true → a ≡ b
unfolding same_texts
same_texts-eq [] [] h = refl
same_texts-eq (t ∷ ts) (u ∷ us) h =
    let (p, q) = and_true _ _ h in ap₂ (λ x y. x ∷ y) (same→eq t u p) (same_texts-eq ts us q)
same_texts-eq [] (u ∷ us) h = cc h
same_texts-eq (t ∷ ts) [] h = cc h

same_exit-eq : (a b : Option ℤ) → same_exit a b ≡ true → a ≡ b
unfolding same_exit
same_exit-eq none none h = refl
same_exit-eq (some (pos m)) (some (pos n)) h = ap (λ x. some (pos x)) ((==_iff m n).0 h)
same_exit-eq (some (negsuc m)) (some (negsuc n)) h = ap (λ x. some (negsuc x)) ((==_iff m n).0 h)
same_exit-eq a b h = cc h

same_flag-eq : (a b : Bool) → same_flag a b ≡ true → a ≡ b
unfolding same_flag
same_flag-eq true true h = refl
same_flag-eq false false h = refl
same_flag-eq a b h = cc h

source_text-injective :
    (a b : RuntimeEvidenceSource) → same (source_text a) (source_text b) ≡ true → a ≡ b
unfolding same lit source_text
source_text-injective target_telemetry target_telemetry h = refl
source_text-injective supervisor supervisor h = refl
source_text-injective independent_observer independent_observer h = refl
source_text-injective a b h = cc h

event-eq :
    (a b : RuntimeEvent)
    → a.event_type ≡ b.event_type
    → a.action ≡ b.action
    → a.target ≡ b.target
    → a.allowed ≡ b.allowed
    → a.detail ≡ b.detail
    → a.source ≡ b.source
    → a ≡ b
event-eq a b p q r s t u = cc

same_events-eq : (a b : List RuntimeEvent) → same_events a b ≡ true → a ≡ b
unfolding same_events
same_events-eq [] [] h = refl
same_events-eq (a ∷ more) (b ∷ bs) h =
    let (p, h1) = and_true (same a.event_type b.event_type) _ h in
    let (q, h2) = and_true (same a.action b.action) _ h1 in
    let (r, h3) = and_true (same a.target b.target) _ h2 in
    let (s, h4) = and_true (same_flag a.allowed b.allowed) _ h3 in
    let (t, h5) = and_true (same a.detail b.detail) _ h4 in
    let (u, h6) = and_true (same (source_text a.source) (source_text b.source)) _ h5 in
    ap₂ (λ x y. x ∷ y)
      (event-eq a b (same→eq _ _ p) (same→eq _ _ q) (same→eq _ _ r) (same_flag-eq _ _ s)
        (same→eq _ _ t) (source_text-injective _ _ u))
      (same_events-eq more bs h6)
same_events-eq [] (b ∷ bs) h = cc h
same_events-eq (a ∷ more) [] h = cc h

pub same_result-IsSame : (a b : ExecutionResult) → same_result a b ≡ true → IsSame a b
unfolding same_result
same_result-IsSame a b h =
    let (p, h1) = and_true (same (outcome_value a.status) (outcome_value b.status)) _ h in
    let (q, h2) = and_true (same_exit a.exit_code b.exit_code) _ h1 in
    let (r, h3) = and_true (same a.stdout b.stdout) _ h2 in
    let (s, h4) = and_true (same a.stderr b.stderr) _ h3 in
    let (t, h5) = and_true (same_number a.duration_seconds b.duration_seconds) _ h4 in
    let (u, v) = and_true (same_events a.events b.events) _ h5 in
    record {
      status = outcome_value-injective _ _ p;
      exit_code = same_exit-eq _ _ q;
      stdout = same→eq _ _ r;
      stderr = same→eq _ _ s;
      duration_seconds = t;
      events = same_events-eq _ _ u;
      command_preview = same_texts-eq _ _ v;
    }
