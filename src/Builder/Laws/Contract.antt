-- ===== src/Builder/Laws/Contract.antt =====
-- src/r_sandbox/tools/sandbox_builder/builder.py: what every built sandbox is.
use r_sandbox.Prelude.{
  arith, ◌≡◌, refl, ap, subst, Bool, true, Option, none, some, List, [], ◌∷◌, Text, lit, All,
  Result, ok, invert, invert_guard, ok-injective,
}
use r_sandbox.Prelude.Float.{Float, float_of_int}
use r_sandbox.Python.{Python}
use r_sandbox.System.{Trace, lift, Host}
use r_sandbox.System.Laws.{invert_run, invert_ask}
use r_sandbox.Models.Records.{CapabilityRequest, PlanStep, Authorization}
use r_sandbox.Models.Value.{Value}
use r_sandbox.Models.Limits.{ResourceLimits}
use r_sandbox.Models.Sandbox.{SandboxSpec, sandbox_spec-eq-ok}
use r_sandbox.Policy.Checks.{to_float}
use r_sandbox.Policy.Plan.{canonical_plan_step, canonical_authorization}
use r_sandbox.Builder.Checks.{disjoint}
use r_sandbox.Builder.Grants.{as_float, require_resource_grants}
use r_sandbox.Builder.Output.{output_directory}
use r_sandbox.Builder.Build.{
  Admitted, admit_grants, admit, admit_candidate, admit_output, specify, build,
}
use r_sandbox.Builder.Laws.Authority.{
  IsAllowed, allowed_requests-IsAllowed, IsTarget, is_network_request, is_device_request,
  network_targets_of-IsTarget, devices_of-IsTarget, IsCovered, require_resource-IsCovered,
}

-- The resources that a sandbox needs, under the names of their requests.
abbrev pub amounts : ResourceLimits → List (Text × Option Float)
amounts l =
    (lit "cpu", to_float l.cpus)
    ∷ (lit "memory_mb", float_of_int l.memory_mb)
    ∷ (lit "pids", float_of_int l.pids)
    ∷ (lit "timeout_seconds", float_of_int l.timeout_seconds)
    ∷ (lit "output_mb", float_of_int l.output_mb)
    ∷ (lit "output_files", float_of_int l.output_files)
    ∷ (lit "temporary_mb", float_of_int l.temporary_mb)
    ∷ (lit "shared_memory_mb", float_of_int l.shared_memory_mb)
    ∷ []

abbrev pub AreCovered : Python → Authorization → ResourceLimits → Type 0
AreCovered P a l =
    All (λ x. (f : Float) × (x.1 ≡ some f) × IsCovered P a.decisions x.0 f) (amounts l)

pub record IsConfined (P : Python) (H : Host) (t : Trace) (output : Text) (step proposed : Value)
    (limits : ResourceLimits) (spec : SandboxSpec) : Type 0 where
  pub planned : PlanStep
  pub authorization : Authorization
  pub canonical_step : canonical_plan_step P step ≡ ok planned
  pub canonical : canonical_authorization P proposed ≡ ok authorization
  pub argv : spec.argv ≡ planned.argv
  pub environment : spec.environment ≡ []
  pub read_only_root : spec.read_only_root ≡ true
  pub drop_capabilities : spec.drop_capabilities ≡ true
  pub network : All (IsTarget authorization.decisions is_network_request) spec.network_targets
  pub devices : All (IsTarget authorization.decisions is_device_request) spec.devices
  pub limits_kept : spec.limits ≡ limits
  pub covered : AreCovered P authorization limits
  pub apart :
      (candidate : Text) × (H.resolve t output ≡ some candidate)
      × (disjoint spec.repository candidate ≡ true)

as_float-eq-ok : (o : Option Float) (f : Float) → as_float o ≡ ok f → o ≡ some f
unfolding as_float
as_float-eq-ok none f h = cc h
as_float-eq-ok (some g) f h = ap some (ok-injective _ _ h)

require_resource_grants-AreCovered :
    (P : Python) (a : Authorization) (rs : List CapabilityRequest) (l : ResourceLimits)
    {u : Unit {0}}
    → All (IsAllowed a.decisions) rs
    → require_resource_grants P rs l ≡ ok u
    → AreCovered P a l
unfolding require_resource_grants
require_resource_grants-AreCovered P a rs l from h = invert h λ c p1 h1. invert h1 λ m p2 h2.
    invert h2 λ p p3 h3. invert h3 λ t p4 h4. invert h4 λ o p5 h5. invert h5 λ f p6 h6.
      invert h6 λ y p7 h7. invert h7 λ s p8 h8. invert h8 λ _ q1 k1. invert k1 λ _ q2 k2.
        invert k2 λ _ q3 k3. invert k3 λ _ q4 k4. invert k4 λ _ q5 k5. invert k5 λ _ q6 k6.
          invert k6 λ _ q7 q8. (
            (c, as_float-eq-ok _ c p1, require_resource-IsCovered P a.decisions rs _ c from q1),
            (
              (m, as_float-eq-ok _ m p2, require_resource-IsCovered P a.decisions rs _ m from q2),
              (
                (p, as_float-eq-ok _ p p3, require_resource-IsCovered P a.decisions rs _ p from q3),
                (
                  (
                    t,
                    as_float-eq-ok _ t p4,
                    require_resource-IsCovered P a.decisions rs _ t from q4,
                  ),
                  (
                    (
                      o,
                      as_float-eq-ok _ o p5,
                      require_resource-IsCovered P a.decisions rs _ o from q5,
                    ),
                    (
                      (
                        f,
                        as_float-eq-ok _ f p6,
                        require_resource-IsCovered P a.decisions rs _ f from q6,
                      ),
                      (
                        (
                          y,
                          as_float-eq-ok _ y p7,
                          require_resource-IsCovered P a.decisions rs _ y from q7,
                        ),
                        (
                          (
                            s,
                            as_float-eq-ok _ s p8,
                            require_resource-IsCovered P a.decisions rs _ s from q8,
                          ),
                          tt,
                        ),
                      ),
                    ),
                  ),
                ),
              ),
            ),
          )

-- What `admit` has found.
record IsAdmitted (P : Python) (step proposed : Value) (limits : ResourceLimits) (a : Admitted)
    : Type 0 where
  authorization : Authorization
  canonical_step : canonical_plan_step P step ≡ ok a.step
  canonical : canonical_authorization P proposed ≡ ok authorization
  allowed : All (IsAllowed authorization.decisions) a.grants
  covered : AreCovered P authorization limits

admit_grants-IsCovered :
    (P : Python) (s : PlanStep) (a : Authorization) (limits : ResourceLimits)
    (rs : List CapabilityRequest)
    → admit_grants P s a limits ≡ ok rs
    → All (IsAllowed a.decisions) rs × AreCovered P a limits
unfolding admit_grants
admit_grants-IsCovered P s a limits rs h = invert h λ _ p1 h1. invert h1 λ gs p2 h2.
    invert h2 λ _ p3 h3. invert h3 λ _ p4 h4. invert h4 λ _ p5 h5.
      let from = allowed_requests-IsAllowed a.decisions s.capabilities gs p2 in
      (
        subst (All (IsAllowed a.decisions)) (ok-injective _ _ h5) from,
        require_resource_grants-AreCovered P a gs limits from p4,
      )

admit_candidate-eq-ok :
    (repository output : Text) (o : Option Text) (candidate : Text)
    → admit_candidate repository output o ≡ ok candidate
    → (o ≡ some candidate) × (disjoint repository candidate ≡ true)
unfolding admit_candidate
admit_candidate-eq-ok repository output none candidate h = cc h
admit_candidate-eq-ok repository output (some c) candidate h = invert_guard _ _ h λ g h1.
    let e = ok-injective _ _ h1 in
    (ap some e, subst (λ x. disjoint repository x ≡ true) e (ground arith))

lift-eq-ok :
    (r : Result SandboxSpec) (s : Trace) (spec : SandboxSpec) (t' : Trace)
    → lift r s ≡ (ok spec, t')
    → r ≡ ok spec
unfolding lift
lift-eq-ok r s spec t' h = ap (λ x. x.0) h

module _ (P : Python) (H : Host) (step proposed : Value) (limits : ResourceLimits) where
  admit-IsAdmitted :
      (repository image : Text) (t : Trace) (a : Admitted)
      → admit P H repository step proposed image limits t ≡ ok a
      → IsAdmitted P step proposed limits a
  unfolding admit
  admit-IsAdmitted repository image t a h = invert h λ s p1 h1. invert h1 λ z p2 h2.
      invert h2 λ r p3 h3. invert h3 λ _ p4 h4. invert h4 λ _ p5 h5. invert h5 λ _ p6 h6.
        invert h6 λ rs p7 h7.
          let (from, covered) = admit_grants-IsCovered P s z limits rs p7 in
          subst (IsAdmitted P step proposed limits) (ok-injective _ _ h7) (record {
            authorization = z;
            canonical_step = p1;
            canonical = p2;
            allowed = from;
            covered = covered;
          })

  specify-IsConfined :
      (a : Admitted) (image output resolved candidate : Text) (t : Trace) (spec : SandboxSpec)
      → IsAdmitted P step proposed limits a
      → H.resolve t output ≡ some candidate
      → disjoint a.repository candidate ≡ true
      → specify a resolved image limits ≡ ok spec
      → IsConfined P H t output step proposed limits spec
  unfolding specify
  specify-IsConfined a image output resolved candidate t spec i e d h = invert h λ _ p1 h1.
      invert h1 λ _ p2 h2.
        subst (IsConfined P H t output step proposed limits) (sandbox_spec-eq-ok _ spec h2)
          (record {
            planned = a.step;
            authorization = i.authorization;
            canonical_step = i.canonical_step;
            canonical = i.canonical;
            argv = refl;
            environment = refl;
            read_only_root = refl;
            drop_capabilities = refl;
            network = network_targets_of-IsTarget i.authorization.decisions a.grants i.allowed;
            devices = devices_of-IsTarget i.authorization.decisions a.grants i.allowed;
            limits_kept = refl;
            covered = i.covered;
            apart = (candidate, e, d);
          })

  admit_output-eq-ok :
      (repository output candidate : Text) (t : Trace)
      → admit_output H repository output t ≡ ok candidate
      → (H.resolve t output ≡ some candidate) × (disjoint repository candidate ≡ true)
  unfolding admit_output
  admit_output-eq-ok repository output candidate t h = invert h λ _ p1 h1.
      let (e, d) = admit_candidate-eq-ok repository output (H.resolve t output) candidate h1 in
      (e, d)

  -- Every sandbox that is built runs the argv of the canonical step with an empty environment, a
  -- read-only root and no privileges. Each host and device that it exposes is the target of an
  -- ALLOW of the canonical authorization, an ALLOW covers each of its limits, and the output was
  -- disjoint from the repository when it was resolved.
  pub build-IsConfined :
      (repository output image : Text) (fresh : Bool) (t t' : Trace) (spec : SandboxSpec)
      → build P H repository output step proposed image limits fresh t ≡ (ok spec, t')
      → IsConfined P H t output step proposed limits spec
  unfolding build
  build-IsConfined repository output image fresh t t' spec h = invert_ask _ _ t h λ a p1 h1.
      invert_ask _ _ t h1 λ candidate p2 h2.
        invert_run (output_directory H candidate fresh) _ t h2 λ resolved s p3 h3.
          let (e, d) = admit_output-eq-ok a.repository output candidate t p2 in
          specify-IsConfined a image output resolved candidate t spec
            (admit-IsAdmitted repository image t a p1) e d (lift-eq-ok _ s spec t' h3)
