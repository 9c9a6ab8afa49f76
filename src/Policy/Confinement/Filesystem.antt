-- ===== src/Policy/Confinement/Filesystem.antt =====
-- src/r_sandbox/policy/engine.py: what an ALLOW of `_filesystem` rests on.
use r_sandbox.Prelude.{◌≡◌, ◌⊎◌, ◌≢◌, true, [], ◌∷◌, arith, Text, lit, one_of, replace_char}
use r_sandbox.Prelude.Paths.{PosixPath, posix_path}
use r_sandbox.Python.{Python}
use r_sandbox.Models.Enums.{filesystem, allow, require_approval}
use r_sandbox.Models.Records.{CapabilityRequest}
use r_sandbox.Policy.Config.{PolicyConfig}
use r_sandbox.Policy.Handlers.{
  read_actions, output_actions, output_answer, scratch_answer, path_answer, filesystem_answer,
}
use r_sandbox.Policy.Confinement.Contract.{IsBelowMount, mount_names, IsRepositoryPath, InContract}

output_answer-allow :
    (action : Text) → (output_answer action).0 ≡ allow → one_of action output_actions ≡ true
unfolding output_answer
output_answer-allow action h = ground arith

scratch_answer-allow :
    (action : Text) → (scratch_answer action).0 ≡ allow → one_of action output_actions ≡ true
unfolding scratch_answer
scratch_answer-allow action h = ground arith

path_answer-allow :
    (P : Python) (action : Text) (p : PosixPath)
    → (path_answer P action p).0 ≡ allow
    → (IsRepositoryPath P p × (one_of action read_actions ≡ true))
      ⊎ (IsBelowMount p × (one_of action output_actions ≡ true))
unfolding path_answer
path_answer-allow P action p h =
    ground (arith, output_answer-allow action, scratch_answer-allow action)

mount_names_of_output :
    (t : Text) → one_of t (lit "<output>" ∷ lit "/output" ∷ []) ≡ true → one_of t mount_names ≡ true
unfolding one_of
mount_names_of_output t h = ground arith

mount_names_of_scratch :
    (t : Text)
    → one_of t (lit "<temporary>" ∷ lit "/tmp" ∷ lit "<shared-memory>" ∷ lit "/dev/shm" ∷ []) ≡ true
    → one_of t mount_names ≡ true
unfolding one_of
mount_names_of_scratch t h = ground arith

pub filesystem_answer-allow :
    (P : Python) (cfg : PolicyConfig) (r : CapabilityRequest)
    → (filesystem_answer P r).0 ≡ allow
    → InContract P cfg r filesystem
unfolding filesystem_answer output_answer scratch_answer
filesystem_answer-allow P cfg r h = ground (
  arith,
  mount_names_of_output r.target,
  mount_names_of_scratch r.target,
  path_answer-allow P (P.lower r.action) (posix_path (replace_char 92 b'/' r.target)),
)

pub filesystem-decides :
    (P : Python) (r : CapabilityRequest) → (filesystem_answer P r).0 ≢ require_approval
unfolding filesystem_answer path_answer output_answer scratch_answer
filesystem-decides P r h = ground arith
