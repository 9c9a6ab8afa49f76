-- ===== src/Policy/Handlers/Filesystem.antt =====
-- src/r_sandbox/policy/engine.py: the answers to filesystem requests.
use r_sandbox.Prelude.{
  Bool, ◌&&◌, ◌||◌, List, [], ◌∷◌, Text, lit, if◌then◌else◌, any, one_of, starts_with, replace_char,
}
use r_sandbox.Prelude.Paths.{PosixPath, posix_path, path_text, is_absolute, has_part}
use r_sandbox.Python.{Python}
use r_sandbox.Models.Enums.{Decision, allow, deny}
use r_sandbox.Models.Records.{CapabilityRequest}

abbrev pub Answer : Type 0
Answer = Decision × Text

unfoldable pub read_actions : List Text
read_actions = lit "read" ∷ lit "list" ∷ lit "stat" ∷ []

unfoldable pub output_actions : List Text
output_actions =
    lit "read"
    ∷ lit "write"
    ∷ lit "create"
    ∷ lit "list"
    ∷ lit "stat"
    ∷ lit "delete_or_move"
    ∷ lit "rename"
    ∷ lit "mutate"
    ∷ []

unfoldable pub sensitive_names : List Text
sensitive_names =
    lit ".ssh" ∷ lit ".aws" ∷ lit ".gnupg" ∷ lit ".env" ∷ lit "credentials" ∷ lit "id_rsa" ∷ []

unfoldable pub output_answer : Text → Answer
output_answer action =
    if one_of action output_actions
    then (allow, lit "Access is confined to fresh per-run output artifacts.")
    else (deny, lit "Unsupported operation on the output mount.")

unfoldable pub scratch_answer : Text → Answer
scratch_answer action =
    if one_of action output_actions
    then (allow, lit "Access is confined to bounded ephemeral container storage.")
    else (deny, lit "Unsupported operation on ephemeral storage.")

unfoldable pub is_sensitive : Python → PosixPath → Bool
is_sensitive P p = any (λ name. one_of (P.lower name) sensitive_names) p.names

-- The part of `_filesystem` that reads the target as a path.
unfoldable pub path_answer : Python → Text → PosixPath → Answer
unfolding output_answer scratch_answer is_sensitive
path_answer P action p =
    if has_part (lit "..") p
    then (deny, lit "Path traversal is never authorized.")
    else if is_absolute p && starts_with (path_text p) (lit "/output/")
    then output_answer action
    else if is_absolute p
        && (starts_with (path_text p) (lit "/tmp/") || starts_with (path_text p) (lit "/dev/shm/"))
    then scratch_answer action
    else if is_sensitive P p
    then (deny, lit "Credential and secret-bearing paths are outside the research contract.")
    else if is_absolute p
    then (if starts_with (path_text p) (lit "/workspace/") && one_of action read_actions
        then (allow, lit "Read is confined to the repository mount.")
        else (deny, lit "Absolute host paths are not exposed to the sandbox."))
    else if one_of action read_actions
    then (allow, lit "Relative reads resolve inside the read-only repository.")
    else (
      deny,
      lit
          "Writes must target /output explicitly; relative output aliases are not mounted by the current runtime.",
    )

-- `_filesystem`
unfoldable pub filesystem_answer : Python → CapabilityRequest → Answer
unfolding output_answer scratch_answer path_answer
filesystem_answer P r =
    let action = P.lower r.action in
    if one_of r.target (lit "<repository>" ∷ lit "/workspace" ∷ [])
    then (if one_of action read_actions
        then (allow, lit "The repository is mounted read-only.")
        else (deny, lit "The original repository is immutable during execution."))
    else if one_of r.target (lit "<output>" ∷ lit "/output" ∷ [])
    then output_answer action
    else if one_of r.target
        (lit "<temporary>" ∷ lit "/tmp" ∷ lit "<shared-memory>" ∷ lit "/dev/shm" ∷ [])
    then scratch_answer action
    else path_answer P action (posix_path (replace_char 92 b'/' r.target))
