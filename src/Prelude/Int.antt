-- ===== src/Prelude/Int.antt =====
-- Python's `int` over the native numbers, under the library's names.
use Prim.Native.Nat.{ℕ, suc, ◌+◌, ◌≤◌}
use mathlib.Core.Bool.{Bool, false, ◌&&◌}
use mathlib.Core.List.{◌++◌}
use r_sandbox.Prelude.Tests.{ltb, leb, ◌==◌}
use r_sandbox.Prelude.Texts.{Text, lit, decimal}

-- `negsuc n` is -(n + 1).
pub data ℤ : Type 0 where
  pos negsuc : ℕ → ℤ

abbrev pub pos_part : ℤ → ℕ
pos_part (pos n) = n
pos_part (negsuc n) = 0

abbrev pub neg_part : ℤ → ℕ
neg_part (pos n) = 0
neg_part (negsuc n) = suc n

abbrev pub ◌≤ℤ◌ : ℤ → ℤ → Type 0
a ≤ℤ b = pos_part a + neg_part b ≤ pos_part b + neg_part a

infix 50 ◌≤ℤ◌
abbrev pub leb_ℤ : ℤ → ℤ → Bool
leb_ℤ a b = leb (pos_part a + neg_part b) (pos_part b + neg_part a)

abbrev pub ltb_ℤ : ℤ → ℤ → Bool
ltb_ℤ a b = ltb (pos_part a + neg_part b) (pos_part b + neg_part a)

abbrev pub eqb_ℤ : ℤ → ℤ → Bool
eqb_ℤ (pos a) (pos b) = a == b
eqb_ℤ (negsuc a) (negsuc b) = a == b
eqb_ℤ _ _ = false

-- `lo <= n <= hi` for natural bounds.
abbrev pub between : ℕ → ℕ → ℤ → Bool
between lo hi (pos n) = leb lo n && leb n hi
between lo hi (negsuc n) = false

-- `str(n)`
unfoldable pub integer_text : ℤ → Text
integer_text (pos n) = decimal n
integer_text (negsuc n) = lit "-" ++ decimal (suc n)
