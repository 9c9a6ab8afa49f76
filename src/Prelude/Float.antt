-- ===== src/Prelude/Float.antt =====
-- Python's `float`, an IEEE 754 double. A finite one is a sign and a whole number of units of
-- 2 ^ -1074, the smallest positive double: every double is such a number, and comparing two of
-- them is comparing integers. No arithmetic but the conversion from `int` is modelled.
use Prim.Native.Nat.{ℕ, zero, suc, ◌+◌, ◌-◌, ◌*◌, ◌/◌, ◌%◌, ◌^◌}
use mathlib.Core.Path.{◌≡◌, refl}
use mathlib.Core.Bool.{Bool, true, false, not, ◌&&◌}
use mathlib.Core.Option.{Option, none, some}
use r_sandbox.Prelude.Tests.{ltb, leb, ◌==◌, if◌then◌else◌}
use r_sandbox.Prelude.Int.{ℤ, pos, negsuc, leb_ℤ, ltb_ℤ}

pub data Float : Type 0 where
  nan : Float
  infinite : (negative : Bool) → Float
  finite : (negative : Bool) (units : ℕ) → Float

-- The integer of units; both zeros are 0.
abbrev pub signed : Bool → ℕ → ℤ
signed true (suc n) = negsuc n
signed true zero = pos 0
signed false n = pos n

unfoldable pub is_finite : Float → Bool
is_finite (finite negative units) = true
is_finite _ = false

-- `a <= b` and `a < b`; a comparison with nan is false.
unfoldable pub le_float : Float → Float → Bool
le_float nan b = false
le_float (infinite s) nan = false
le_float (infinite true) (infinite t) = true
le_float (infinite true) (finite t n) = true
le_float (infinite false) (infinite t) = not t
le_float (infinite false) (finite t n) = false
le_float (finite s m) nan = false
le_float (finite s m) (infinite t) = not t
le_float (finite s m) (finite t n) = leb_ℤ (signed s m) (signed t n)

unfoldable pub lt_float : Float → Float → Bool
lt_float nan b = false
lt_float (infinite s) nan = false
lt_float (infinite s) (infinite t) = s && not t
lt_float (infinite s) (finite t n) = s
lt_float (finite s m) nan = false
lt_float (finite s m) (infinite t) = not t
lt_float (finite s m) (finite t n) = ltb_ℤ (signed s m) (signed t n)

unfoldable pub units_per_one : ℕ
units_per_one = 2 ^ 1074

-- An integer as an exact number of units, for Python's exact comparison of `int` and `float`.
unfoldable pub exact : ℤ → Float
unfolding units_per_one
exact (pos n) = finite false (n * units_per_one)
exact (negsuc n) = finite true (suc n * units_per_one)

bit_length_from : ℕ → ℕ → ℕ
bit_length_from zero n = 0
bit_length_from (suc fuel) n = elim (n == 0) [ true ↦ 0 | false ↦ bit_length_from fuel (n / 2) + 1 ]

-- Halving reaches 0 within `n` rounds.
unfoldable pub bit_length : ℕ → ℕ
unfolding bit_length_from
bit_length n = bit_length_from n n

-- Round to 53 significant bits, ties to even: the multiple `q` of `2 ^ k`, or the next one.
round_up : ℕ → ℕ → ℕ → ℕ
round_up q r half = if ltb r half then q else if r == half then q + q % 2 else q + 1

unfoldable pub round_53 : ℕ → ℕ
unfolding bit_length round_up
round_53 n =
    let k = bit_length n - 53 in
    if k == 0 then n else round_up (n / 2 ^ k) (n % 2 ^ k) (2 ^ (k - 1)) * 2 ^ k

with_sign : Bool → ℕ → Option Float
unfolding units_per_one
with_sign s m = if leb (2 ^ 1024) m then none else some (finite s (m * units_per_one))

-- `float(n)`; `none` is OverflowError.
unfoldable pub float_of_int : ℤ → Option Float
unfolding round_53 with_sign
float_of_int (pos n) = with_sign false (round_53 n)
float_of_int (negsuc n) = with_sign true (round_53 (suc n))

-- The literals 0.0, 1.0 and 0.65 (0x1.4cccccccccccdp-1).
unfoldable pub zero_float : Float
zero_float = finite false 0

unfoldable pub one_float : Float
unfolding units_per_one
one_float = finite false units_per_one

unfoldable pub threshold : Float
threshold = finite false (0x14cccccccccccd * 2 ^ 1021)

-- `f.is_integer()` of a finite float.
unfoldable pub is_integer : Float → Bool
unfolding units_per_one
is_integer (finite s units) = units % units_per_one == 0
is_integer _ = false

rounds :
    (round_53 9007199254740993 == 9007199254740992 ≡ true)
    × (le_float zero_float threshold ≡ true)
    × (lt_float threshold one_float ≡ true)
unfolding round_53 le_float lt_float zero_float threshold one_float
rounds = (refl, refl, refl)
