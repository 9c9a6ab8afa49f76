-- ===== src/Policy/Confinement/Contract.antt =====
-- src/r_sandbox/policy/engine.py: the authority that the engine can grant, category by category,
-- described without its answers.
use r_sandbox.Prelude.{
  ◌≡◌, ◌⊎◌, true, false, some, List, [], ◌∷◌, ◌++◌, Text, lit, one_of, starts_with, replace_char,
}
use r_sandbox.Prelude.Float.{Float, is_finite, le_float, lt_float, zero_float}
use r_sandbox.Prelude.Paths.{PosixPath, posix_path, path_text, has_part, is_absolute}
use r_sandbox.Python.{Python, Url}
use r_sandbox.Models.Enums.{
  CapabilityCategory, filesystem, network, process, secret, device, resource, side_effect,
}
use r_sandbox.Models.Records.{CapabilityRequest}
use r_sandbox.Policy.Checks.{host_of, has_extras, canonical_target}
use r_sandbox.Policy.Config.{PolicyConfig, is_hostname, bad_port, endpoint}
use r_sandbox.Policy.Handlers.{
  is_sensitive, read_actions, output_actions, below_threshold, safe_executables, maximum_of,
}
use r_sandbox.Policy.Engine.Grants.{IsApproved}

-- The target lies on a writable mount of the sandbox: one of its names, or a path below one, with
-- no parent component.
abbrev pub mount_names : List Text
mount_names =
    lit "<output>"
    ∷ lit "/output"
    ∷ lit "<temporary>"
    ∷ lit "/tmp"
    ∷ lit "<shared-memory>"
    ∷ lit "/dev/shm"
    ∷ []

abbrev pub IsBelowMount : PosixPath → Type 0
IsBelowMount p =
    (has_part (lit "..") p ≡ false)
    × (is_absolute p ≡ true)
    × ((starts_with (path_text p) (lit "/output/") ≡ true)
        ⊎ (starts_with (path_text p) (lit "/tmp/") ≡ true)
        ⊎ (starts_with (path_text p) (lit "/dev/shm/") ≡ true))

abbrev pub IsWritable : Text → Type 0
IsWritable target =
    (one_of target mount_names ≡ true) ⊎ IsBelowMount (posix_path (replace_char 92 b'/' target))

-- One concrete public host, in its canonical spelling, for a download that serves the goal.
pub record IsDownload (P : Python) (r : CapabilityRequest) (u : Url) : Type 0 where
  pub parsed : P.urlparse (lit "//" ++ r.target) ≡ some u
  pub bare : has_extras u ≡ false
  pub canonical : r.target ≡ canonical_target (host_of P u) u.port
  pub port : bad_port u.port ≡ false
  pub hostname : is_hostname (host_of P u) ≡ true
  pub external : P.is_internal_address (host_of P u) ≡ false
  pub download : P.lower r.action ≡ lit "download"
  pub related : below_threshold r.confidence ≡ false

-- What the repository is read by: one of its names, or a path that is relative or below the mount,
-- has no parent component, and names no credential.
abbrev pub IsRepositoryPath : Python → PosixPath → Type 0
IsRepositoryPath P p =
    (has_part (lit "..") p ≡ false)
    × (is_sensitive P p ≡ false)
    × ((is_absolute p ≡ false) ⊎ (starts_with (path_text p) (lit "/workspace/") ≡ true))

abbrev pub IsReadable : Python → Text → Type 0
IsReadable P target =
    (one_of target (lit "<repository>" ∷ lit "/workspace" ∷ []) ≡ true)
    ⊎ IsRepositoryPath P (posix_path (replace_char 92 b'/' target))

-- The contract of each category.
abbrev pub InContract : Python → PolicyConfig → CapabilityRequest → CapabilityCategory → Type 0
InContract P cfg r filesystem =
    (IsReadable P r.target × (one_of (P.lower r.action) read_actions ≡ true))
    ⊎ (IsWritable r.target × (one_of (P.lower r.action) output_actions ≡ true))
InContract P cfg r network =
    (u : Url) × IsDownload P r u
    × ((one_of (endpoint (host_of P u) u.port) cfg.network_allowlist ≡ true) ⊎ IsApproved cfg r)
InContract P cfg r process =
    (P.lower r.action ≡ lit "execute")
    × (one_of r.target safe_executables ≡ true)
    × (one_of r.target cfg.allowed_executables ≡ true)
InContract P cfg r secret = ⊥
InContract P cfg r device =
    (P.lower r.action ≡ lit "access")
    × (one_of (P.lower r.target) (lit "gpu" ∷ lit "cuda" ∷ []) ≡ true)
    × (below_threshold r.confidence ≡ false)
    × IsApproved cfg r
InContract P cfg r resource =
    (value maximum : Float) × (P.parse_float r.target ≡ some value)
    × (is_finite value ≡ true)
    × (le_float value zero_float ≡ false)
    × (maximum_of cfg (P.lower r.action) ≡ some maximum)
    × (lt_float maximum value ≡ false)
InContract P cfg r side_effect = ⊥
