-- ===== src/Builder/Grants.antt =====
-- src/r_sandbox/tools/sandbox_builder/builder.py: the requests that the authorization allows, and the
-- grants that every sandbox needs.
use r_sandbox.Prelude.{
  Bool, true, not, ◌&&◌, ◌||◌, Option, none, some, List, [], ◌∷◌, ◌++◌, Text, lit, unique,
  if◌then◌else◌, any, filter, map, same, one_of, value_error, Result, ok, err, ◌>>=◌, ◌>>◌,
  raise_if,
}
use r_sandbox.Prelude.Float.{
  Float, is_finite, is_integer, le_float, lt_float, zero_float, float_of_int,
}
use r_sandbox.Python.{Python}
use r_sandbox.Models.Enums.{
  Decision, allow, is_filesystem, is_process, is_resource, is_network, is_device,
}
use r_sandbox.Models.Records.{CapabilityRequest, PolicyDecision}
use r_sandbox.Models.Equality.{same_request}
use r_sandbox.Models.Limits.{ResourceLimits}
use r_sandbox.Policy.Checks.{to_float}

-- `decisions_by_id.get(request_id)`
unfoldable pub decision_of : Text → List PolicyDecision → Option PolicyDecision
decision_of id [] = none
decision_of id (d ∷ ds) =
    let rest = decision_of id ds in if same d.request.request_id id then some d else rest

-- The first loop of `build`: no id is decided twice.
unfoldable pub require_unique : List Text → List PolicyDecision → Result (Unit {0})
require_unique seen [] = ok tt
require_unique seen (d ∷ ds) =
    let rest = require_unique (d.request.request_id ∷ seen) ds in
    do
      raise_if (one_of d.request.request_id seen) (
          value_error (lit "authorization contains duplicate request id: " ++ d.request.request_id))
      rest

-- Only an ALLOW leaves its request.
unfoldable pub if_allowed : Decision → CapabilityRequest → Option CapabilityRequest
if_allowed allow r = some r
if_allowed _ r = none

-- One round of the second loop: the request to grant, if its decision is ALLOW.
unfoldable pub granted_request :
    CapabilityRequest → Option PolicyDecision → Result (Option CapabilityRequest)
unfolding same_request if_allowed
granted_request r none =
    err (value_error (lit "no policy decision for capability: " ++ r.request_id))
granted_request r (some d) = do
  raise_if (not (same_request d.request r)) (
      value_error
        (lit "authorized capability payload differs from the planned request: " ++ r.request_id))
  ok (if_allowed d.decision d.request)

unfoldable pub kept : Option CapabilityRequest → List CapabilityRequest → List CapabilityRequest
kept none rs = rs
kept (some r) rs = r ∷ rs

unfoldable pub allowed_requests :
    List PolicyDecision → List CapabilityRequest → Result (List CapabilityRequest)
unfolding decision_of granted_request kept
allowed_requests ds [] = ok []
allowed_requests ds (r ∷ rs) = do
  o ← granted_request r (decision_of r.request_id ds)
  gs ← allowed_requests ds rs
  ok (kept o gs)

-- `_require_filesystem_grant`
unfoldable pub require_filesystem_grant :
    List CapabilityRequest → (target action description : Text) → Result (Unit {0})
require_filesystem_grant rs target action description =
    raise_if
      (not
        (any (λ r. is_filesystem r.category && (same r.target target && same r.action action)) rs))
      (value_error (description ++ lit " has no matching ALLOW capability"))

unfoldable pub require_mounts : List CapabilityRequest → Result (Unit {0})
unfolding require_filesystem_grant
require_mounts rs = do
  require_filesystem_grant rs (lit "<repository>") (lit "read") (lit "read-only repository mount")
  require_filesystem_grant rs (lit "<output>") (lit "read") (lit "read access on the output mount")
  require_filesystem_grant rs (lit "<output>") (lit "write")
      (lit "write access on the output mount")
  require_filesystem_grant rs (lit "<temporary>") (lit "read")
      (lit "read access on bounded ephemeral /tmp")
  require_filesystem_grant rs (lit "<temporary>") (lit "write")
      (lit "write access on bounded ephemeral /tmp")
  require_filesystem_grant rs (lit "<shared-memory>") (lit "read")
      (lit "read access on bounded private /dev/shm")
  require_filesystem_grant rs (lit "<shared-memory>") (lit "write")
      (lit "write access on bounded private /dev/shm")

unfoldable pub whole_resources : List Text
whole_resources =
    lit "memory_mb"
    ∷ lit "pids"
    ∷ lit "timeout_seconds"
    ∷ lit "output_mb"
    ∷ lit "output_files"
    ∷ lit "temporary_mb"
    ∷ lit "shared_memory_mb"
    ∷ []

-- The amount that one request grants, if the loop does not skip it.
unfoldable pub amount_of : Text → Option Float → Option Float
unfolding whole_resources
amount_of action none = none
amount_of action (some f) =
    if not (is_finite f) || le_float f zero_float
    then none
    else if one_of action whole_resources && not (is_integer f)
    then none
    else some f

-- `max(granted.get(action, 0.0), value)`; a value that is not skipped is above 0.0.
unfoldable pub larger : Option Float → Option Float → Option Float
larger none old = old
larger (some f) none = some f
larger (some f) (some old) = if lt_float old f then some f else some old

-- `granted.get(action)` after the loop, from what it was before.
unfoldable pub granted_from : Python → Text → Option Float → List CapabilityRequest → Option Float
unfolding amount_of larger
granted_from P action old [] = old
granted_from P action old (r ∷ rs) =
    granted_from P action
      (if is_resource r.category && same r.action action
        then larger (amount_of action (P.parse_float r.target)) old
        else old)
      rs

unfoldable pub lacks : Float → Option Float → Bool
lacks value none = true
lacks value (some granted) = lt_float granted value

unfoldable pub require_resource : Python → List CapabilityRequest → Text → Float → Result (Unit {0})
unfolding granted_from lacks
require_resource P rs action value = raise_if (lacks value (granted_from P action none rs)) (
    value_error (
      lit "resource grant "
      ++ (action
          ++ (lit "="
              ++ (P.format_g value ++ lit " exceeds or lacks a matching ALLOW capability")))))

-- `float(limit)`. Limits within their declared bounds do not overflow.
unfoldable pub as_float : Option Float → Result Float
as_float none = err (value_error (lit "int too large to convert to float"))
as_float (some f) = ok f

-- `_require_resource_grants`
unfoldable pub require_resource_grants :
    Python → List CapabilityRequest → ResourceLimits → Result (Unit {0})
unfolding require_resource as_float
require_resource_grants P rs l = do
  cpus ← as_float (to_float l.cpus)
  memory_mb ← as_float (float_of_int l.memory_mb)
  pids ← as_float (float_of_int l.pids)
  timeout_seconds ← as_float (float_of_int l.timeout_seconds)
  output_mb ← as_float (float_of_int l.output_mb)
  output_files ← as_float (float_of_int l.output_files)
  temporary_mb ← as_float (float_of_int l.temporary_mb)
  shared_memory_mb ← as_float (float_of_int l.shared_memory_mb)
  require_resource P rs (lit "cpu") cpus
  require_resource P rs (lit "memory_mb") memory_mb
  require_resource P rs (lit "pids") pids
  require_resource P rs (lit "timeout_seconds") timeout_seconds
  require_resource P rs (lit "output_mb") output_mb
  require_resource P rs (lit "output_files") output_files
  require_resource P rs (lit "temporary_mb") temporary_mb
  require_resource P rs (lit "shared_memory_mb") shared_memory_mb

-- `process_granted`
unfoldable pub process_granted : Text → List CapabilityRequest → Bool
process_granted executable rs =
    any (λ r. is_process r.category && (same r.action (lit "execute") && same r.target executable))
      rs

unfoldable pub network_targets_of : List CapabilityRequest → List Text
unfolding unique
network_targets_of rs = unique [] (map (λ r. r.target) (filter (λ r. is_network r.category) rs))

unfoldable pub devices_of : List CapabilityRequest → List Text
unfolding unique
devices_of rs =
    unique []
      (map (λ r. r.target) (filter (λ r. is_device r.category && same r.action (lit "access")) rs))
