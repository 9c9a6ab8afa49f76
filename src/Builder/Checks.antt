-- ===== src/Builder/Checks.antt =====
-- src/r_sandbox/tools/sandbox_builder/builder.py: the checks of the step, the image and the limits.
-- `SandboxBuildError` and its subclasses are `ValueError`s.
use r_sandbox.Prelude.{
  ℕ, Bool, true, false, not, ◌&&◌, ◌||◌, Option, none, some, List, [], ◌∷◌, ◌++◌, map, Text, lit,
  leb, ◌==◌, if◌then◌else◌, length, is_empty, any, all, same, one_of, starts_with, split, has_char,
  rstrip_char, is_alphanumeric, value_error, Result, err, ◌>>◌, raise_if,
}
use r_sandbox.Prelude.Int.{ℤ, pos, leb_ℤ}
use r_sandbox.Prelude.Float.{Float, is_finite, lt_float, zero_float}
use r_sandbox.Prelude.Paths.{PosixPath, posix_path, path_text, is_absolute}
use r_sandbox.Python.{Python}
use r_sandbox.System.{Trace, Host}
use r_sandbox.Models.Records.{Number, PlanStep}
use r_sandbox.Models.Limits.{ResourceLimits}
use r_sandbox.Policy.Checks.{to_float, is_bool}
use r_sandbox.Agent.Planner.{name_of}

-- `a / b` of two paths.
unfoldable pub ◌slash◌ : PosixPath → PosixPath → PosixPath
unfolding is_absolute
a slash b = if is_absolute b then b else record { root = a.root; names = a.names ++ b.names }

infixl 5 ◌slash◌
names_start_with : List Text → List Text → Bool
unfolding same
names_start_with ns [] = true
names_start_with [] (m ∷ ms) = false
names_start_with (n ∷ ns) (m ∷ ms) = same n m && names_start_with ns ms

-- `a.is_relative_to(b)`
unfoldable pub is_relative_to : PosixPath → PosixPath → Bool
unfolding names_start_with
is_relative_to a b = same a.root b.root && names_start_with a.names b.names

-- Neither path is the other or below it.
unfoldable pub disjoint : Text → Text → Bool
unfolding is_relative_to
disjoint a b = not (
    same a b
    || (is_relative_to (posix_path b) (posix_path a)
        || is_relative_to (posix_path a) (posix_path b)))

-- `_safe_repository_file`
resolved_inside : Host → Trace → Text → Option Text → Bool
unfolding is_relative_to
resolved_inside H t repository none = false
resolved_inside H t repository (some r) =
    is_relative_to (posix_path r) (posix_path repository) && H.is_file t r

unfoldable pub safe_repository_file : Host → Trace → (repository candidate : Text) → Bool
unfolding resolved_inside
safe_repository_file H t repository candidate = elim (H.is_symlink t candidate) [
  | some false ↦ resolved_inside H t repository (H.resolve_existing t candidate)
  | _ ↦ false
]

starts_identifier : ℕ → Bool
starts_identifier c = (leb b'a' c && leb c b'z') || (leb b'A' c && leb c b'Z') || c == b'_'

is_identifier : Python → Text → Bool
unfolding starts_identifier
is_identifier P [] = false
is_identifier P (c ∷ t) = starts_identifier c && all P.is_word t

-- `re.fullmatch(r"[A-Za-z_]\w*(?:\.[A-Za-z_]\w*)*", text)`
unfoldable pub is_module_name : Python → Text → Bool
unfolding is_identifier
is_module_name P t = all (is_identifier P) (split b'.' t)

-- `path.with_suffix(".py")` of a path whose last name has no dot.
with_py : List Text → List Text
with_py [] = []
with_py (n ∷ []) = (n ++ lit ".py") ∷ []
with_py (n ∷ m ∷ ns) = n ∷ with_py (m ∷ ns)

-- The two files that may be the module.
unfoldable pub module_candidates : Text → Text → List Text
unfolding with_py
module_candidates repository name =
    let place = λ (names : List Text).
      path_text (posix_path repository slash record { root = []; names = names }) in
    place (with_py (split b'.' name)) ∷ place (split b'.' name ++ lit "__main__.py" ∷ []) ∷ []

-- `-m` and what follows it.
unfoldable pub validate_module : Python → Host → Trace → Text → List Text → Result (Unit {0})
unfolding is_module_name module_candidates safe_repository_file
validate_module P H t repository [] = err (value_error (lit "invalid Python module entrypoint"))
validate_module P H t repository (name ∷ rest) = do
  raise_if (not (is_module_name P name)) (value_error (lit "invalid Python module entrypoint"))
  raise_if (not (any (safe_repository_file H t repository) (module_candidates repository name)))
      (value_error (lit "Python module entrypoint is not in the repository"))

-- `argv[1]` and what follows it.
unfoldable pub validate_entrypoint : Python → Host → Trace → Text → List Text → Result (Unit {0})
unfolding validate_module safe_repository_file
validate_entrypoint P H t repository [] =
    err (value_error (lit "Python execution requires a repository script or module"))
validate_entrypoint P H t repository (script ∷ rest) =
    if same script (lit "-m") then validate_module P H t repository rest else do
      raise_if (starts_with script (lit "-"))
          (value_error (lit "Python interpreter flags are not accepted at the runtime boundary"))
      raise_if
          (not (
            safe_repository_file H t repository
              (path_text (posix_path repository slash posix_path script))))
          (value_error (lit "Python script entrypoint is not a regular repository file"))

repeats : List Text → Bool
repeats [] = false
repeats (i ∷ is) = one_of i is || repeats is

unfoldable pub bare_executables : List Text
bare_executables = lit "python" ∷ lit "python3" ∷ []

-- `_validate_step`
unfoldable pub validate_bare_step : Python → Host → Trace → PlanStep → Text → Result (Unit {0})
unfolding validate_entrypoint repeats bare_executables
validate_bare_step P H t s repository = elim (s.argv) [
  | [] ↦ err (value_error (lit "the plan step must contain a non-empty argv"))
  | argv0 ∷ rest ↦
      let executable = P.lower (name_of argv0) in
      do
        raise_if (is_empty argv0) (value_error (lit "the plan step must contain a non-empty argv"))
        raise_if (any (has_char 0) (argv0 ∷ rest))
            (value_error (lit "argv must contain only NUL-free strings"))
        raise_if (not (one_of executable bare_executables) || not (same argv0 executable))
            (value_error (lit "only a bare, allowlisted research executable is supported"))
        validate_entrypoint P H t repository rest
        raise_if (not (same (rstrip_char b'/' s.cwd) (lit "/workspace"))) (
            value_error
              (lit "the current SandboxSpec contract can safely represent only cwd=/workspace"))
        raise_if (repeats (map (λ r. r.request_id) s.capabilities))
            (value_error (lit "the plan step contains duplicate capability ids"))
]

image_char : ℕ → Bool
image_char c = is_alphanumeric c || one_of (c ∷ []) (map (λ d. d ∷ []) (lit "._/:@-"))

-- `_IMAGE_PATTERN.fullmatch`
unfoldable pub is_image : Text → Bool
unfolding image_char
is_image [] = false
is_image (c ∷ t) = is_alphanumeric c && (leb (length t) 254 && all image_char t)

-- `_validate_image`
unfoldable pub validate_image : Python → Text → Result (Unit {0})
unfolding is_image
validate_image P image =
    raise_if (not (is_image image))
      (value_error (lit "invalid container image reference: " ++ P.repr image))

positive_finite : Option Float → Bool
positive_finite none = false
positive_finite (some f) = is_finite f && lt_float zero_float f

-- `_valid_positive_number`
unfoldable pub valid_positive_number : Number → Bool
unfolding positive_finite
valid_positive_number n = not (is_bool n) && positive_finite (to_float n)

validate_whole : Text → ℤ → Result (Unit {0})
validate_whole label n =
    raise_if (not (leb_ℤ (pos 1) n))
      (value_error (label ++ lit " limit must be a positive finite integer"))

-- `_validate_limits` on a `ResourceLimits`.
unfoldable pub validate_limits : ResourceLimits → Result (Unit {0})
unfolding valid_positive_number validate_whole
validate_limits l = do
  raise_if (not (valid_positive_number l.cpus))
      (value_error (lit "CPU limit must be a positive finite number"))
  validate_whole (lit "memory") l.memory_mb
  validate_whole (lit "PID") l.pids
  validate_whole (lit "timeout") l.timeout_seconds
  validate_whole (lit "output byte") l.output_mb
  validate_whole (lit "output file") l.output_files
  validate_whole (lit "temporary storage") l.temporary_mb
  validate_whole (lit "shared memory") l.shared_memory_mb
