-- ===== src/Builder/Output.antt =====
-- src/r_sandbox/tools/sandbox_builder/builder.py: the output directory.
use r_sandbox.Prelude.{
  ℕ, Bool, true, false, not, ◌||◌, Option, none, some, List, [], ◌∷◌, ◌++◌, Text, lit, ltb, ◌==◌,
  ◌/◌, ◌%◌, if◌then◌else◌, has_char, decimal, Raised, value_error, os_error, Result, ok, err, ◌>>◌,
  raise_if,
}
use r_sandbox.System.{
  made_parent, made_directory, removed_directory, assigned_directory, Trace, Run, lift, ask,
  ◌then_run◌, Metadata, Lookup, missing, unreadable, found, Mkdir, created, exists, refused, Host,
}

-- `_is_link_or_reparse`
unfoldable pub is_link_or_reparse : Metadata → Bool
is_link_or_reparse m =
    m.link || elim (m.junction) [ none ↦ true | some true ↦ true | some false ↦ m.reparse ]

-- `_runtime_identity`
unfoldable pub runtime_identity : Option (ℕ × ℕ) → Option (ℕ × ℕ)
runtime_identity none = none
runtime_identity (some (uid, gid)) = some (if ltb 0 uid then (uid, gid) else (65534, 65534))

cannot_prepare : Text → Raised
cannot_prepare path = value_error (lit "cannot prepare output directory: " ++ path)

link_error : Raised
link_error = value_error (lit "output must not be a link, junction, or reparse point")

-- The checks of `lstat` behind the creation.
unfoldable pub check_directory : Text → Text → Lookup → Result (Unit {0})
unfolding cannot_prepare link_error is_link_or_reparse
check_directory path candidate (found m) = do
  raise_if (is_link_or_reparse m) link_error
  raise_if (not m.directory) (value_error (lit "output is not a directory: " ++ candidate))
check_directory path candidate _ = err (cannot_prepare path)

-- `os.chown` and `os.chmod` raise or do not.
assigned : Bool → Result (Unit {0})
assigned done =
    raise_if (not done)
      (value_error (lit "new output directory could not be assigned to the sandbox user"))

unfoldable pub assign_to : Host → Text → Option (ℕ × ℕ) → Run (Unit {0})
unfolding assigned
assign_to H output none t = (ok tt, t)
assign_to H output (some identity) t = (assigned (H.assign t output), assigned_directory output ∷ t)

-- `_prepare_new_output_identity`
unfoldable pub prepare_new_output_identity : Host → Text → Run (Unit {0})
unfolding assign_to runtime_identity
prepare_new_output_identity H output = assign_to H output (runtime_identity H.user)

-- The three permission bits that concern the identity.
unfoldable pub permissions : ℕ × ℕ → Metadata → ℕ
permissions (uid, gid) m =
    if uid == m.uid then m.mode / 64 % 8 else if gid == m.gid then m.mode / 8 % 8 else m.mode % 8

check_access : Text → ℕ × ℕ → Lookup → Result (Unit {0})
unfolding permissions cannot_prepare
check_access path identity (found m) = raise_if (not (permissions identity m == 7)) (
    value_error (
      lit "existing output directory is not readable, writable, and searchable by sandbox uid/gid "
      ++ (decimal identity.0
          ++ (lit ":" ++ (decimal identity.1 ++ lit "; refusing recursive chmod or chown")))))
check_access path identity _ = err (cannot_prepare path)

-- `_require_runtime_output_access`
unfoldable pub require_runtime_output_access : Host → Text → Text → Trace → Result (Unit {0})
unfolding runtime_identity check_access
require_runtime_output_access H path output t = elim (runtime_identity H.user) [
  | none ↦ ok tt
  | some identity ↦ check_access path identity (H.lstat t output)
]

unfoldable pub resolved_or : Raised → Option Text → Result Text
resolved_or e none = err e
resolved_or e (some p) = ok p

-- The end of the `try` block behind the creation.
unfoldable pub finish_directory : Host → Text → Text → Run Text
unfolding cannot_prepare resolved_or require_runtime_output_access
finish_directory H path candidate =
    ask (λ t. resolved_or (cannot_prepare path) (H.resolve_existing t candidate))
    then_run λ resolved.
        ask (λ t. require_runtime_output_access H path resolved t) then_run λ _. lift (ok resolved)

-- The `try` block.
unfoldable pub inspect_directory : Host → Text → Text → Bool → Run Text
unfolding check_directory prepare_new_output_identity finish_directory
inspect_directory H path candidate new =
    ask (λ t. check_directory path candidate (H.lstat t candidate)) then_run λ _.
    (if new then prepare_new_output_identity H candidate else lift (ok tt)) then_run λ _.
    finish_directory H path candidate

-- The handlers of that block: `rmdir` is called, and its failure ignored.
unfoldable pub clean_up : Text → Result Text × Trace → Result Text × Trace
clean_up candidate (ok p, t) = (ok p, t)
clean_up candidate (err e, t) = (err e, removed_directory candidate ∷ t)

exists_error : Raised
exists_error =
    value_error (lit "run output directory already exists; refusing to mount preexisting content")

-- What follows `mkdir`.
unfoldable pub after_mkdir : Host → Text → Bool → Text → Trace → Mkdir → Result Text × Trace
unfolding inspect_directory clean_up cannot_prepare exists_error
after_mkdir H path require_new candidate t created =
    clean_up candidate (inspect_directory H path candidate true (made_directory candidate ∷ t))
after_mkdir H path require_new candidate t exists =
    if require_new then (err exists_error, t) else inspect_directory H path candidate false t
after_mkdir H path require_new candidate t refused = (err (cannot_prepare path), t)

-- The parents that `mkdir` made stay, however it ended.
unfoldable pub with_parents : List Text → Trace → Trace
with_parents [] t = t
with_parents (p ∷ ps) t = with_parents ps (made_parent p ∷ t)

-- The outcomes of `mkdir`, and the rest.
unfoldable pub prepare_directory :
    Host → Text → Bool → Text → Trace → List Text × Mkdir → Result Text × Trace
unfolding with_parents after_mkdir
prepare_directory H path require_new candidate t (parents, outcome) =
    after_mkdir H path require_new candidate (with_parents parents t) outcome

-- `_output_directory`
unfoldable pub output_directory : Host → Text → Bool → Run Text
unfolding prepare_directory resolved_or
output_directory H path require_new =
    ask (λ t. resolved_or (os_error path) (H.resolve t path)) then_run λ candidate t.
    prepare_directory H path require_new candidate t (H.mkdir t candidate)

-- `_validate_mount_path`
unfoldable pub validate_mount_path : Text → Text → Result (Unit {0})
validate_mount_path path label =
    raise_if (has_char b',' path || (has_char 10 path || (has_char 13 path || has_char 0 path))) (
      value_error (label ++ (lit " path cannot be represented safely as a Docker mount: " ++ path)))

-- The inspection of `build` before the output is resolved.
unfoldable pub check_supplied : Text → Lookup → Result (Unit {0})
unfolding is_link_or_reparse link_error
check_supplied output missing = ok tt
check_supplied output unreadable =
    err (value_error (lit "output path could not be inspected safely: " ++ output))
check_supplied output (found m) = raise_if (is_link_or_reparse m) link_error
