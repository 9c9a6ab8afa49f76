-- ===== src/Assess/Events.antt =====
-- src/r_sandbox/agent/security_assessor.py: the endpoint and path readers, and the two tests of a
-- runtime event, `is_dangerous` and `event_is_authorized`.
use r_sandbox.Prelude.{
  Bool, true, false, not, ◌&&◌, ◌||◌, Option, none, some, List, [], ◌∷◌, ◌++◌, Text, lit,
  if◌then◌else◌, is_empty, any, same, one_of, starts_with, has_infix, has_char, split,
}
use r_sandbox.Prelude.Paths.{posix_path, path_text}
use r_sandbox.Python.{Python, Url}
use r_sandbox.Models.Enums.{
  is_network, is_process, is_device, is_filesystem, RuntimeEvidenceSource, is_target_telemetry,
}
use r_sandbox.Models.Records.{CapabilityRequest, RuntimeEvent}
use r_sandbox.Policy.Checks.{host_of, has_extras}
use r_sandbox.Policy.Config.{bad_port, endpoint}

endpoint_of_url : Python → Option Url → Text
unfolding host_of has_extras bad_port endpoint
endpoint_of_url P none = []
endpoint_of_url P (some u) =
    let host = host_of P u in
    if is_empty host || (has_extras u || bad_port u.port) then [] else endpoint host u.port

-- `_network_endpoint`
unfoldable pub network_endpoint : Python → Text → Text
unfolding endpoint_of_url
network_endpoint P target = endpoint_of_url P (P.urlparse (lit "//" ++ target))

-- `_canonical_runtime_path`. `posixpath.normpath` of an absolute text with one leading slash and no
-- parent component is the text of its pure path.
unfoldable pub canonical_runtime_path : Text → Option Text
canonical_runtime_path target =
    if not (starts_with target (lit "/"))
      || (starts_with target (lit "//")
          || (has_char 92 target || (has_char 0 target || has_infix (lit " -> ") target)))
    then none
    else if one_of (lit "..") (split b'/' target)
    then none
    else some (path_text (posix_path target))

-- `normalized == root or normalized.startswith(root + "/")`
unfoldable pub lies_in : Text → Text → Bool
lies_in path root = same path root || starts_with path (root ++ lit "/")

scratch_path : Option Text → Bool
unfolding lies_in
scratch_path none = false
scratch_path (some path) = any (lies_in path) (lit "/output" ∷ lit "/tmp" ∷ lit "/dev/shm" ∷ [])

-- `_sandbox_scratch_target`
unfoldable pub sandbox_scratch_target : Text → Bool
unfolding scratch_path
sandbox_scratch_target target = scratch_path (canonical_runtime_path target)

read_kinds : List Text
read_kinds = lit "read" ∷ lit "list" ∷ lit "stat" ∷ []

write_kinds : List Text
write_kinds =
    lit "write"
    ∷ lit "create"
    ∷ lit "delete"
    ∷ lit "delete_or_move"
    ∷ lit "rename"
    ∷ lit "mutate"
    ∷ []

required_action : Text → Text
unfolding read_kinds write_kinds
required_action action =
    if one_of action read_kinds
    then lit "read"
    else if one_of action write_kinds
    then lit "write"
    else action

filesystem_granted : Text → Text → List CapabilityRequest → Bool
filesystem_granted abstract action =
    any (λ r. is_filesystem r.category && (same r.target abstract && same r.action action))

-- The loop over the scopes: the first scope that holds the path decides.
scope_grants : Text → Text → List CapabilityRequest → List (Text × Text) → Bool
unfolding lies_in required_action filesystem_granted
scope_grants path action requests [] = false
scope_grants path action requests ((abstract, root) ∷ scopes) =
    let rest = scope_grants path action requests scopes in
    if lies_in path root
    then filesystem_granted abstract (required_action action) requests
    else rest

scopes : List (Text × Text)
scopes =
    (lit "<repository>", lit "/workspace")
    ∷ (lit "<output>", lit "/output")
    ∷ (lit "<temporary>", lit "/tmp")
    ∷ (lit "<shared-memory>", lit "/dev/shm")
    ∷ []

path_authorized : Text → Option Text → List CapabilityRequest → Bool
unfolding read_kinds lies_in scope_grants scopes
path_authorized action none requests = false
path_authorized action (some path) requests =
    if one_of action read_kinds
      && one_of path (lit "/dev/null" ∷ lit "/dev/random" ∷ lit "/dev/urandom" ∷ [])
    then true
    else if one_of action read_kinds
        && any (lies_in path)
            (lit "/usr" ∷ lit "/lib" ∷ lit "/lib64" ∷ lit "/opt/r-sandbox-audit" ∷ [])
    then true
    else scope_grants path action requests scopes

-- `_authorized_filesystem_event`
unfoldable pub authorized_filesystem_event : Text → Text → List CapabilityRequest → Bool
unfolding path_authorized canonical_runtime_path
authorized_filesystem_event action target requests =
    path_authorized action (canonical_runtime_path target) requests

-- What the two tests of `assess` close over.
pub record Grants : Type 0 where
  pub expected_hosts : List Text
  pub sensitive_access : Bool
  pub allowed : List CapabilityRequest

network_danger : Python → Grants → RuntimeEvent → Bool
unfolding network_endpoint
network_danger P g e =
    one_of (P.lower e.action)
      (lit "send" ∷ lit "post" ∷ lit "put" ∷ lit "patch" ∷ lit "upload" ∷ [])
    || (not (one_of (network_endpoint P e.target) g.expected_hosts) || g.sensitive_access)

filesystem_danger : Python → RuntimeEvent → Bool
unfolding sandbox_scratch_target
filesystem_danger P e =
    not (sandbox_scratch_target e.target)
    && (one_of (P.lower e.action)
          (lit "delete" ∷ lit "delete_or_move" ∷ lit "rename" ∷ lit "mutate" ∷ lit "write" ∷ [])
        || any (λ marker. has_infix marker (P.lower e.target))
            (lit ".ssh"
              ∷ lit ".aws"
              ∷ lit ".env"
              ∷ lit "credential"
              ∷ lit "secret"
              ∷ lit "/etc/passwd"
              ∷ lit "/etc/shadow"
              ∷ []))

process_danger : Python → Grants → RuntimeEvent → Bool
process_danger P g e =
    not (same (P.lower e.action) (lit "execute"))
    || not (
        any
          (λ r. is_process r.category && (same r.action (lit "execute") && same r.target e.target))
          g.allowed)

-- `is_dangerous`
unfoldable pub is_dangerous : Python → Grants → RuntimeEvent → Bool
unfolding network_danger filesystem_danger process_danger
is_dangerous P g e =
    let kind = P.lower e.event_type in
    one_of kind (lit "secret" ∷ lit "side_effect" ∷ lit "device" ∷ [])
    || (same kind (lit "network") && network_danger P g e
        || (same kind (lit "filesystem") && filesystem_danger P e
            || same kind (lit "process") && process_danger P g e))

-- `event_is_authorized`
unfoldable pub event_is_authorized : Python → Grants → RuntimeEvent → Bool
unfolding authorized_filesystem_event network_endpoint
event_is_authorized P g e =
    let kind = P.lower e.event_type in
    let action = P.lower e.action in
    if one_of kind (lit "observer" ∷ lit "runtime" ∷ lit "dry_run" ∷ lit "policy" ∷ [])
    then true
    else if same kind (lit "filesystem")
    then authorized_filesystem_event action e.target g.allowed
    else if same kind (lit "network")
    then (if not (one_of action (lit "connect" ∷ lit "download" ∷ []))
        then false
        else any
            (λ r.
              is_network r.category
              && (same r.action (lit "download")
                  && (same (network_endpoint P r.target) (network_endpoint P e.target)
                      && not (is_empty (network_endpoint P e.target)))))
            g.allowed)
    else if same kind (lit "process")
    then any (λ r. is_process r.category && (same r.action action && same r.target e.target))
        g.allowed
    else if same kind (lit "device")
    then any
        (λ r.
          is_device r.category
          && (same r.action action && same (P.lower r.target) (P.lower e.target)))
        g.allowed
    else if same kind (lit "resource")
    then not (same action (lit "limit"))
    else false

-- `event.source in trusted_runtime_sources`
abbrev pub is_trusted : RuntimeEvidenceSource → Bool
is_trusted s = not (is_target_telemetry s)
