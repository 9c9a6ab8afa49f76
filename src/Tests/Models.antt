-- ===== src/Tests/Models.antt =====
-- The limits of a sandbox at concrete values.
use r_sandbox.Prelude.{◌≡◌, refl, lit, ok, decimal, ◌>>=◌}
use r_sandbox.Prelude.Int.{pos}
use r_sandbox.Prelude.Float.{
  is_finite, lt_float, le_float, zero_float, one_float, exact, float_of_int,
}
use r_sandbox.Models.Records.{int, float}
use r_sandbox.Models.Value.{Value}
use r_sandbox.Models.Limits.{ResourceLimits, resource_limits, IsLimited, resource_limits-IsLimited}

limits_run : Unit {0}
unfolding resource_limits is_finite lt_float le_float zero_float one_float exact float_of_int lit
    decimal ◌>>=◌
limits_run = tt

abbrev limits : ResourceLimits
limits = record {
  cpus = float one_float;
  memory_mb = pos 1024;
  pids = pos 128;
  timeout_seconds = pos 300;
  output_mb = pos 1024;
  output_files = pos 10000;
  temporary_mb = pos 64;
  shared_memory_mb = pos 16;
}

constructs :
    resource_limits
      (Value.num (float one_float))
      (Value.num (int (pos 1024)))
      (Value.num (int (pos 128)))
      (Value.num (int (pos 300)))
      (Value.num (int (pos 1024)))
      (Value.num (int (pos 10000)))
      (Value.num (int (pos 64)))
      (Value.num (int (pos 16)))
    ≡ ok limits
unfolding limits_run
constructs = refl

resource_limits-IsLimited_example : IsLimited limits
resource_limits-IsLimited_example =
    resource_limits-IsLimited (Value.num (float one_float)) (Value.num (int (pos 1024)))
      (Value.num (int (pos 128))) (Value.num (int (pos 300))) (Value.num (int (pos 1024)))
      (Value.num (int (pos 10000))) (Value.num (int (pos 64))) (Value.num (int (pos 16))) limits
      constructs
