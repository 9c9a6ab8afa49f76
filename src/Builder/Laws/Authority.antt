-- ===== src/Builder/Laws/Authority.antt =====
-- src/r_sandbox/tools/sandbox_builder/builder.py: where the authority of a sandbox comes from.
use mathlib.Core.List.{Memᴰ}
use mathlib.Core.Bool.{false≢true}
use r_sandbox.Prelude.{
  ◌≡◌, refl, sym, ap, ◌∙◌, subst, ◌⊎◌, inl, inr, Bool, true, false, Option, none, some, List, [],
  ◌∷◌, map, Text, unique, lit, filter, All, same, same→eq, one_of, ok, invert, invert_guard,
  ok-injective, Bool-cases, Option-cases, and_true, raise_if-eq-ok, ◌&&◌,
}
use r_sandbox.Prelude.Float.{Float, lt_float}
use r_sandbox.Python.{Python}
use r_sandbox.Models.Enums.{Decision, allow, is_network, is_device, is_resource}
use r_sandbox.Models.Records.{CapabilityRequest, PolicyDecision}
use r_sandbox.Builder.Grants.{
  decision_of, if_allowed, granted_request, kept, allowed_requests, amount_of, larger, granted_from,
  lacks, require_resource, network_targets_of, devices_of,
}

-- The request of an ALLOW among the decisions.
abbrev pub IsAllowed : List PolicyDecision → CapabilityRequest → Type 0
IsAllowed ds r = (d : PolicyDecision) × Memᴰ d ds × (d.decision ≡ allow) × (d.request ≡ r)

decision_of-Mem :
    (id : Text) (ds : List PolicyDecision) (d : PolicyDecision)
    → decision_of id ds ≡ some d
    → Memᴰ d ds
unfolding decision_of
decision_of-Mem id [] d h = cc
decision_of-Mem id (x ∷ ds) d h = elim (Bool-cases (same x.request.request_id id)) [
  | inl hit ↦ let e : some x ≡ some d = (rw hit at h) in Memᴰ.head (cc e)
  | inr miss ↦ Memᴰ.tail (decision_of-Mem id ds d (rw miss at h))
]

if_allowed-some :
    (k : Decision) (r g : CapabilityRequest) → if_allowed k r ≡ some g → (k ≡ allow) × (r ≡ g)
unfolding if_allowed
if_allowed-some allow r g h = (refl, cc h)
if_allowed-some _ r g h = cc h

module _ (ds : List PolicyDecision) where
  granted_request-IsAllowed :
      (r : CapabilityRequest) (o : Option PolicyDecision) (g : CapabilityRequest)
      → ((d : PolicyDecision) → o ≡ some d → Memᴰ d ds)
      → granted_request r o ≡ ok (some g)
      → IsAllowed ds g
  unfolding granted_request
  granted_request-IsAllowed r none g m h = cc h
  granted_request-IsAllowed r (some d) g m h = invert_guard _ _ h λ e h1.
      let (p, q) = if_allowed-some d.decision d.request g (ok-injective _ _ h1) in
      (d, m d refl, p, q)

  kept-All :
      (o : Option CapabilityRequest) (gs : List CapabilityRequest)
      → ((g : CapabilityRequest) → o ≡ some g → IsAllowed ds g)
      → All (IsAllowed ds) gs
      → All (IsAllowed ds) (kept o gs)
  unfolding kept
  kept-All none gs f a = a
  kept-All (some g) gs f a = (f g refl, a)

  -- Whatever is granted was allowed.
  pub allowed_requests-IsAllowed :
      (rs gs : List CapabilityRequest) → allowed_requests ds rs ≡ ok gs → All (IsAllowed ds) gs
  unfolding allowed_requests
  allowed_requests-IsAllowed [] gs h = subst (All (IsAllowed ds)) (ok-injective _ _ h) tt
  allowed_requests-IsAllowed (r ∷ rs) gs h = invert h λ o p h1. invert h1 λ rest q h2.
      subst (All (IsAllowed ds)) (ok-injective _ _ h2) (
        kept-All o rest
          (λ g e.
            granted_request-IsAllowed r (decision_of r.request_id ds) g
              (decision_of-Mem r.request_id ds) (p ∙ ap ok e))
          (allowed_requests-IsAllowed rs rest q))

-- A target of an allowed request that passes a test.
abbrev pub IsTarget : List PolicyDecision → (CapabilityRequest → Bool) → Text → Type 0
IsTarget ds test t = (r : CapabilityRequest) × IsAllowed ds r × (test r ≡ true) × (r.target ≡ t)

abbrev pub is_network_request : CapabilityRequest → Bool
is_network_request r = is_network r.category

abbrev pub is_device_request : CapabilityRequest → Bool
is_device_request r = is_device r.category && same r.action (lit "access")

module _ (ds : List PolicyDecision) (test : CapabilityRequest → Bool) where
  targets-IsTarget :
      (rs : List CapabilityRequest)
      → All (IsAllowed ds) rs
      → All (IsTarget ds test) (map (λ r. r.target) (filter test rs))
  targets-IsTarget [] a = tt
  targets-IsTarget (r ∷ rs) a = elim (Bool-cases (test r)) [
    | inl hit ↦ rw hit ((r, a.0, hit, refl), targets-IsTarget rs a.1)
    | inr miss ↦ rw miss (targets-IsTarget rs a.1)
  ]

unique-All {κ} : (Q : Text → Type κ) (seen ts : List Text) → All Q ts → All Q (unique seen ts)
unfolding unique
unique-All Q seen [] a = tt
unique-All Q seen (t ∷ ts) a = elim (Bool-cases (one_of t seen)) [
  | inl old ↦ rw old (unique-All Q seen ts a.1)
  | inr new ↦ rw new (a.0, unique-All Q (t ∷ seen) ts a.1)
]

pub network_targets_of-IsTarget :
    (ds : List PolicyDecision) (rs : List CapabilityRequest)
    → All (IsAllowed ds) rs
    → All (IsTarget ds is_network_request) (network_targets_of rs)
unfolding network_targets_of
network_targets_of-IsTarget ds rs a =
    unique-All _ [] _ (targets-IsTarget ds is_network_request rs a)

pub devices_of-IsTarget :
    (ds : List PolicyDecision) (rs : List CapabilityRequest)
    → All (IsAllowed ds) rs
    → All (IsTarget ds is_device_request) (devices_of rs)
unfolding devices_of
devices_of-IsTarget ds rs a = unique-All _ [] _ (targets-IsTarget ds is_device_request rs a)

-- The amount of an allowed request for a resource.
abbrev IsAmount : Python → List PolicyDecision → Text → Float → Type 0
IsAmount P ds action g =
    (r : CapabilityRequest) × IsAllowed ds r
    × (is_resource r.category ≡ true)
    × (r.action ≡ action)
    × (amount_of action (P.parse_float r.target) ≡ some g)

module _ (P : Python) (ds : List PolicyDecision) (action : Text) where
  larger-cases :
      (new old : Option Float) (g : Float)
      → larger new old ≡ some g
      → (new ≡ some g) ⊎ (old ≡ some g)
  unfolding larger
  larger-cases none old g h = inr h
  larger-cases (some f) none g h = inl h
  larger-cases (some f) (some o) g h = elim (Bool-cases (lt_float o f)) [
    | inl more ↦ inl (rw more at h)
    | inr less ↦ inr (rw less at h)
  ]

  granted_from-IsAmount :
      (rs : List CapabilityRequest) (old : Option Float) (g : Float)
      → All (IsAllowed ds) rs
      → ((f : Float) → old ≡ some f → IsAmount P ds action f)
      → granted_from P action old rs ≡ some g
      → IsAmount P ds action g
  unfolding granted_from
  granted_from-IsAmount [] old g a from h = from g h
  granted_from-IsAmount (r ∷ rs) old g a from h =
      elim (Bool-cases (is_resource r.category && same r.action action)) [
        | inl hit ↦
            granted_from-IsAmount rs _ g a.1
              (λ f e. elim (larger-cases (amount_of action (P.parse_float r.target)) old f e) [
                | inl new ↦ (r, a.0, (and_true _ _ hit).0, same→eq _ _ (and_true _ _ hit).1, new)
                | inr before ↦ from f before
              ])
              (rw hit at h)
        | inr miss ↦ granted_from-IsAmount rs old g a.1 from (rw miss at h)
      ]

-- An allowed request for the resource grants at least the value.
abbrev pub IsCovered : Python → List PolicyDecision → Text → Float → Type 0
IsCovered P ds action value =
    (r : CapabilityRequest) × (g : Float) × IsAllowed ds r
    × (is_resource r.category ≡ true)
    × (r.action ≡ action)
    × (amount_of action (P.parse_float r.target) ≡ some g)
    × (lt_float g value ≡ false)

lacks-some :
    (g value : Float) (o : Option Float)
    → o ≡ some g
    → lacks value o ≡ false
    → lt_float g value ≡ false
unfolding lacks
lacks-some g value none e h = cc e
lacks-some g value (some f) e h = subst (λ x. lt_float x value ≡ false) (cc e) h

pub require_resource-IsCovered :
    (P : Python) (ds : List PolicyDecision) (rs : List CapabilityRequest) (action : Text)
    (value : Float) {u : Unit {0}}
    → All (IsAllowed ds) rs
    → require_resource P rs action value ≡ ok u
    → IsCovered P ds action value
unfolding require_resource lacks
require_resource-IsCovered P ds rs action value a h =
    elim (Option-cases (granted_from P action none rs)) [
      | inl lacking ↦
          let e : lacks value (granted_from P action none rs) ≡ false = raise_if-eq-ok _ _ h in
          absurd (false≢true (sym (rw lacking at e)))
      | inr (g, granted) ↦
          let (r, allowed, k, e, m) =
            granted_from-IsAmount P ds action rs none g a (λ f e. cc e) granted in
          (
            r,
            g,
            allowed,
            k,
            e,
            m,
            lacks-some g value (granted_from P action none rs) granted (raise_if-eq-ok _ _ h),
          )
    ]
