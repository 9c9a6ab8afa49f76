-- ===== src/System.antt =====
-- The effects of a run, and the services of the operating system that answer to them. A service may
-- answer by all that has been done before, so nothing is assumed of it.
pub mod Laws
use r_sandbox.Prelude.{ℕ, Bool, Option, List, [], ◌∷◌, Text, Result, ok, err, Raised}
use r_sandbox.Models.Sandbox.{SandboxSpec}
use r_sandbox.Models.Value.{Value}

pub data Effect : Type 0 where
  made_parent made_directory removed_directory assigned_directory inventoried : Text → Effect
  opened_snapshot closed_snapshot : Text → Effect
  executed dry_ran : SandboxSpec → Effect

-- The newest effect stands first.
abbrev pub Trace : Type 0
Trace = List Effect

-- A computation with effects. What was done stays done after a raise.
abbrev pub Run {ℓ} : Type ℓ → Type ℓ
Run A = Trace → Result A × Trace

module _ {ℓ} {A : Type ℓ} where
  unfoldable pub lift : Result A → Run A
  lift r t = (r, t)

  -- A step that looks at the system and changes nothing.
  unfoldable pub ask : (Trace → Result A) → Run A
  ask f t = (f t, t)

  unfoldable pub emit : Effect → Run A → Run A
  emit e m t = m (e ∷ t)

unfoldable pub continue {ℓ κ} :
    {A : Type ℓ} {B : Type κ} → (A → Run B) → Result A × Trace → Result B × Trace
continue f (ok a, t) = f a t
continue f (err e, t) = (err e, t)

infixl 5 ◌then_run◌
unfoldable pub ◌then_run◌ {ℓ κ} : {A : Type ℓ} {B : Type κ} → Run A → (A → Run B) → Run B
unfolding continue
◌then_run◌ m f t = continue f (m t)

-- `os.lstat`, as far as the sources read it. The `junction` of a path is `none` where asking for
-- it is an OSError.
pub record Metadata : Type 0 where
  pub link : Bool
  pub junction : Option Bool
  pub reparse : Bool
  pub directory : Bool
  pub uid : ℕ
  pub gid : ℕ
  pub mode : ℕ

pub data Lookup : Type 0 where
  missing unreadable : Lookup
  found : Metadata → Lookup

pub data Mkdir : Type 0 where
  created exists refused : Mkdir

pub record Host : Type 0 where
  -- `str(Path(text).resolve(strict=True))`; `none` is an OSError or a RuntimeError
  pub resolve_existing : Trace → Text → Option Text
  -- `str(Path(text).resolve(strict=False))`; `none` is an OSError or a RuntimeError
  pub resolve : Trace → Text → Option Text
  -- `Path.is_dir` and `Path.is_file`
  pub is_directory : Trace → Text → Bool
  pub is_file : Trace → Text → Bool
  -- `Path.is_symlink`; `none` is an OSError
  pub is_symlink : Trace → Text → Option Bool
  pub lstat : Trace → Text → Lookup
  -- `Path.mkdir(parents=True, mode=0o700, exist_ok=False)`: the missing parents that it made, which
  -- may be some of them when it fails, and how it ended
  pub mkdir : Trace → Text → List Text × Mkdir
  -- `os.getuid` and `os.getgid`, where there are such functions
  pub user : Option (ℕ × ℕ)
  -- `os.chown` for a privileged user, and `os.chmod`; `false` is an OSError
  pub assign : Trace → Text → Bool
