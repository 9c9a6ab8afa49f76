-- ===== src/Models/Limits.antt =====
-- src/r_sandbox/models.py: `ResourceLimits` and the checks of its constructor.
use r_sandbox.Prelude.{
  ℕ, ◌≡◌, refl, ◌≤◌, ◌*◌, Bool-cases, Option-cases, inl, inr, Bool, true, false, ◌&&◌, Option, none,
  some, arith, Text, lit, ◌++◌, decimal, if◌then◌else◌, type_error, Result, ok, err, ◌>>=◌, invert,
  subst, ok-injective,
}
use r_sandbox.Prelude.Int.{ℤ, pos, ◌≤ℤ◌, between}
use r_sandbox.Prelude.Float.{
  Float, nan, infinite, finite, units_per_one, is_finite, lt_float, le_float, zero_float, exact,
  float_of_int,
}
use r_sandbox.Models.Records.{Number, bool, int, float}
use r_sandbox.Models.Value.{Value}

pub record ResourceLimits : Type 0 where
  pub cpus : Number
  pub memory_mb : ℤ
  pub pids : ℤ
  pub timeout_seconds : ℤ
  pub output_mb : ℤ
  pub output_files : ℤ
  pub temporary_mb : ℤ
  pub shared_memory_mb : ℤ

-- `math.isfinite(f) and 0 < f <= 32`
unfoldable pub in_cpu_range : Option Float → Bool
in_cpu_range none = false
in_cpu_range (some f) = is_finite f && (lt_float zero_float f && le_float f (exact (pos 32)))

unfoldable pub valid_cpus : Number → Bool
unfolding in_cpu_range
valid_cpus (bool b) = false
valid_cpus (int n) = in_cpu_range (float_of_int n)
valid_cpus (float f) = in_cpu_range (some f)

unfoldable pub as_cpus : Value → Result Number
unfolding valid_cpus
as_cpus (Value.num n) =
    if valid_cpus n
    then ok n
    else err (type_error (lit "cpus must be an exact finite number in (0, 32]"))
as_cpus _ = err (type_error (lit "cpus must be an exact finite number in (0, 32]"))

-- One round of the loop over `integer_bounds`.
unfoldable pub as_limit : Text → ℕ → Value → Result ℤ
as_limit name maximum (Value.num (int n)) =
    if between 1 maximum n
    then ok n
    else err (
        type_error
          (name ++ lit " must be an exact positive integer no greater than " ++ decimal maximum))
as_limit name maximum _ = err (
    type_error
      (name ++ lit " must be an exact positive integer no greater than " ++ decimal maximum))

-- `ResourceLimits(...)`
unfoldable pub resource_limits :
    (cpus memory_mb pids timeout_seconds output_mb output_files temporary_mb
      shared_memory_mb : Value)
    → Result ResourceLimits
unfolding as_cpus as_limit
resource_limits cpus memory_mb pids timeout_seconds output_mb output_files temporary_mb
      shared_memory_mb =
    do
      c ← as_cpus cpus
      m ← as_limit (lit "memory_mb") 65536 memory_mb
      p ← as_limit (lit "pids") 4096 pids
      t ← as_limit (lit "timeout_seconds") 86400 timeout_seconds
      o ← as_limit (lit "output_mb") 65536 output_mb
      f ← as_limit (lit "output_files") 1000000 output_files
      y ← as_limit (lit "temporary_mb") 16384 temporary_mb
      s ← as_limit (lit "shared_memory_mb") 16384 shared_memory_mb
      ok (record {
        cpus = c;
        memory_mb = m;
        pids = p;
        timeout_seconds = t;
        output_mb = o;
        output_files = f;
        temporary_mb = y;
        shared_memory_mb = s;
      })

abbrev pub IsLimit : ℕ → ℤ → Type 0
IsLimit maximum n = (pos 1 ≤ℤ n) × (n ≤ℤ pos maximum)

-- A float above 0 and at most 32, by its sign and its units.
abbrev pub FitsCpus : Float → Type 0
FitsCpus (finite negative units) = (negative ≡ false) × (1 ≤ units) × (units ≤ 32 * units_per_one)
FitsCpus _ = ⊥

-- The number is a float in that range, or an integer that `float` takes into it.
abbrev pub IsCpus : Number → Type 0
IsCpus (bool b) = ⊥
IsCpus (int n) = (f : Float) × (float_of_int n ≡ some f) × FitsCpus f
IsCpus (float f) = FitsCpus f

pub record IsLimited (l : ResourceLimits) : Type 0 where
  pub cpus : IsCpus l.cpus
  pub memory_mb : IsLimit 65536 l.memory_mb
  pub pids : IsLimit 4096 l.pids
  pub timeout_seconds : IsLimit 86400 l.timeout_seconds
  pub output_mb : IsLimit 65536 l.output_mb
  pub output_files : IsLimit 1000000 l.output_files
  pub temporary_mb : IsLimit 16384 l.temporary_mb
  pub shared_memory_mb : IsLimit 16384 l.shared_memory_mb

in_cpu_range-FitsCpus : (f : Float) → in_cpu_range (some f) ≡ true → FitsCpus f
unfolding in_cpu_range is_finite lt_float le_float zero_float exact
in_cpu_range-FitsCpus (finite false units) h = (refl, ground (arith), ground (arith))
in_cpu_range-FitsCpus (finite true units) h = absurd (ground arith)
in_cpu_range-FitsCpus nan h = absurd (cc h)
in_cpu_range-FitsCpus (infinite s) h = absurd (cc h)

valid_cpus-IsCpus : (n : Number) → valid_cpus n ≡ true → IsCpus n
unfolding valid_cpus in_cpu_range
valid_cpus-IsCpus (bool b) h = absurd (cc h)
valid_cpus-IsCpus (int n) h = elim (Option-cases (float_of_int n)) [
  | inl none_left ↦ absurd (cc (rw none_left at h))
  | inr (f, e) ↦ (f, e, in_cpu_range-FitsCpus f (rw e at h))
]
valid_cpus-IsCpus (float f) h = in_cpu_range-FitsCpus f h

as_cpus-eq-ok : (v : Value) (n : Number) → as_cpus v ≡ ok n → IsCpus n
unfolding as_cpus
as_cpus-eq-ok (Value.num m) n h = elim (Bool-cases (valid_cpus m)) [
  | inl fits ↦ subst IsCpus (ok-injective _ _ (rw fits at h)) (valid_cpus-IsCpus m fits)
  | inr unfit ↦ absurd (cc (rw unfit at h))
]
as_cpus-eq-ok _ n h = cc

as_limit-eq-ok :
    (name : Text) (maximum : ℕ) (v : Value) (n : ℤ)
    → as_limit name maximum v ≡ ok n
    → IsLimit maximum n
unfolding as_limit
as_limit-eq-ok name maximum (Value.num (int m)) n h = ground arith
as_limit-eq-ok name maximum (Value.num (bool m)) n h = cc
as_limit-eq-ok name maximum (Value.num (float m)) n h = cc
as_limit-eq-ok name maximum _ n h = cc

-- Limits that could be constructed from untrusted values are within their bounds: the processors a
-- finite number above 0 and at most 32, each other limit an integer from 1 to its maximum.
pub resource_limits-IsLimited :
    (cpus memory_mb pids timeout_seconds output_mb output_files temporary_mb
      shared_memory_mb : Value)
    (l : ResourceLimits)
    → resource_limits cpus memory_mb pids timeout_seconds output_mb output_files temporary_mb
        shared_memory_mb
      ≡ ok l
    → IsLimited l
unfolding resource_limits
resource_limits-IsLimited cpus memory_mb pids timeout_seconds output_mb output_files temporary_mb
      shared_memory_mb l h =
    invert h λ c p1 h1. invert h1 λ m p2 h2. invert h2 λ p p3 h3. invert h3 λ t p4 h4.
      invert h4 λ o p5 h5. invert h5 λ f p6 h6. invert h6 λ y p7 h7. invert h7 λ s p8 h8.
        subst IsLimited (ok-injective _ _ h8) (record {
          cpus = as_cpus-eq-ok cpus c p1;
          memory_mb = as_limit-eq-ok _ 65536 memory_mb m p2;
          pids = as_limit-eq-ok _ 4096 pids p p3;
          timeout_seconds = as_limit-eq-ok _ 86400 timeout_seconds t p4;
          output_mb = as_limit-eq-ok _ 65536 output_mb o p5;
          output_files = as_limit-eq-ok _ 1000000 output_files f p6;
          temporary_mb = as_limit-eq-ok _ 16384 temporary_mb y p7;
          shared_memory_mb = as_limit-eq-ok _ 16384 shared_memory_mb s p8;
        })
