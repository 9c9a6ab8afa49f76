-- ===== src/Policy/Confinement.antt =====
-- src/r_sandbox/policy/engine.py: the decisions of `authorize` and the contracts of the categories.
pub mod Contract
mod Filesystem
mod Network
mod Handlers
use r_sandbox.Prelude.{
  ℕ, ◌≡◌, refl, ◌⊎◌, inl, inr, ◌≢◌, true, false, not, ◌||◌, Option, none, some, List, [], ◌∷◌, ◌++◌,
  arith, Text, lit, any, is_empty, All, All-map, same, same→eq, one_of, starts_with, replace_char,
  ok, Bool-cases, Option-cases,
}
use r_sandbox.Prelude.Float.{Float, is_finite, le_float, lt_float, zero_float}
use r_sandbox.Prelude.Paths.{PosixPath, posix_path, path_text, has_part, is_absolute}
use r_sandbox.Python.{Python, Url}
use r_sandbox.Models.Enums.{
  CapabilityCategory, filesystem, network, process, secret, device, resource, side_effect, allow,
  deny, require_approval,
}
use r_sandbox.Models.Records.{CapabilityRequest, Authorization}
use r_sandbox.Models.Value.{Value}
use r_sandbox.Policy.Checks.{host_of, has_extras, canonical_target}
use r_sandbox.Policy.Plan.{ValidatedPlan, validate_execution_plan, has_error}
use r_sandbox.Policy.Config.{PolicyConfig, is_hostname, bad_port, endpoint, normalized}
use r_sandbox.Policy.Handlers.{
  is_sensitive, read_actions, output_actions, output_answer, scratch_answer, path_answer,
  filesystem_answer, below_threshold, host_answer, url_answer, network_answer, safe_executables,
  process_answer, device_answer, maximum_of, amount_answer, side_effect_answer,
}
use r_sandbox.Policy.Engine.{evaluate, evaluate_as, authorize}
use r_sandbox.Policy.Engine.Grants.{IsApproved, IsGranted, authorize-IsGranted}
use r_sandbox.Policy.Confinement.Contract.{
  IsBelowMount, IsWritable, IsDownload, mount_names, IsRepositoryPath, IsReadable, InContract,
}
use r_sandbox.Policy.Confinement.Filesystem.{filesystem_answer-allow, filesystem-decides}
use r_sandbox.Policy.Confinement.Network.{network_answer-ne-deny}
use r_sandbox.Policy.Confinement.Handlers.{
  process_answer-allow, amount_answer-allow, device_answer-ne-deny, process-decides, amount-decides,
  side_effect-denies,
}

InContract-of_rule :
    (P : Python) (cfg : PolicyConfig) (r : CapabilityRequest) (k : CapabilityCategory)
    → ((evaluate_as P cfg r k).0 ≡ allow)
      ⊎ (((evaluate_as P cfg r k).0 ≡ require_approval) × IsApproved cfg r)
    → InContract P cfg r k
unfolding evaluate_as
InContract-of_rule P cfg r filesystem (inl a) = filesystem_answer-allow P cfg r a
InContract-of_rule P cfg r filesystem (inr (a, _)) = absurd (filesystem-decides P r a)
InContract-of_rule P cfg r network (inl a) =
    let (u, download, listed) = network_answer-ne-deny P cfg r (λ d. cc) in
    (u, download, inl (listed a))
InContract-of_rule P cfg r network (inr (a, approved)) =
    let (u, download, listed) = network_answer-ne-deny P cfg r (λ d. cc) in
    (u, download, inr approved)
InContract-of_rule P cfg r process (inl a) = process_answer-allow P cfg r a
InContract-of_rule P cfg r process (inr (a, _)) = absurd (process-decides P cfg r a)
InContract-of_rule P cfg r secret (inl a) = cc
InContract-of_rule P cfg r secret (inr (a, _)) = cc
InContract-of_rule P cfg r device (inl a) = absurd ((device_answer-ne-deny P r (λ d. cc)).3 a)
InContract-of_rule P cfg r device (inr (a, approved)) =
    let (access, gpu, related, _) = device_answer-ne-deny P r (λ d. cc) in
    (access, gpu, related, approved)
InContract-of_rule P cfg r resource (inl a) =
    amount_answer-allow cfg (P.lower r.action) (P.parse_float r.target) a
InContract-of_rule P cfg r resource (inr (a, _)) =
    absurd (amount-decides cfg (P.lower r.action) (P.parse_float r.target) a)
InContract-of_rule P cfg r side_effect (inl a) = cc (side_effect-denies P r)
InContract-of_rule P cfg r side_effect (inr (a, _)) = cc (side_effect-denies P r)

InContract-of_grant :
    (P : Python) (cfg : PolicyConfig) (goal : Text) (r : CapabilityRequest)
    → IsGranted P cfg goal r
    → InContract P cfg r r.category
unfolding evaluate
InContract-of_grant P cfg goal r g = InContract-of_rule P cfg r r.category g.earned

-- Whatever a plan proposes, the engine allows only what its category's contract admits: reads of
-- the repository without parent components or credential names, reads and writes on the sandbox's
-- own writable mounts, downloads from one concrete
-- public host that is allowlisted or approved, the two interpreters, an approved GPU, and resources
-- that are positive and within the configured ceiling. A secret or a side effect is never allowed.
pub authorize-InContract :
    (P : Python) (plan : Value) (config : PolicyConfig) (v : ValidatedPlan) (a : Authorization)
    → validate_execution_plan P plan ≡ ok v
    → any has_error v.requests ≡ false
    → authorize P plan config ≡ ok a
    → (cfg : PolicyConfig) × (normalized P config ≡ ok cfg)
      × All (λ d. d.decision ≡ allow → InContract P cfg d.request d.request.category) a.decisions
authorize-InContract P plan config v a valid clean h =
    let (cfg, n, granted) = authorize-IsGranted P plan config v a valid clean h in
    (
      cfg,
      n,
      All-map (λ d. d.decision ≡ allow → IsGranted P cfg v.plan.goal d.request)
          (λ d. d.decision ≡ allow → InContract P cfg d.request d.request.category)
          (λ d g e. InContract-of_grant P cfg v.plan.goal d.request (g e)) a.decisions granted,
    )
