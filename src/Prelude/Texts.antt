-- ===== src/Prelude/Texts.antt =====
-- Python's `str`: the list of its code points, lone surrogates included. A literal of the source
-- is `lit "..."`.
use Prim.Native.Nat.{ℕ, zero, suc, ◌+◌, ◌/◌, ◌%◌}
use Prim.Native.Char.{code}
use Prim.Native.String.{String}
use mathlib.Core.Path.{◌≡◌, refl, ap₂}
use mathlib.Core.Logic.{◌↔◌}
use mathlib.Core.Bool.{Bool, true, false, not, ◌&&◌, ◌||◌}
use mathlib.Core.List.{List, [], ◌∷◌, map, reverse}
use native.Mathlib.Omega.{arith}
use r_sandbox.Prelude.Tests.{ltb, leb, ◌==◌, if◌then◌else◌, and_true, ==_iff}
use r_sandbox.Prelude.Lists.{any}

abbrev pub Text : Type 0
Text = List ℕ

unfoldable pub lit : String → Text
lit String.[] = []
lit (String.◌∷◌ c s) = code c ∷ lit s

-- `a == b` on texts.
unfoldable pub same : Text → Text → Bool
same [] [] = true
same [] (d ∷ b) = false
same (c ∷ a) [] = false
same (c ∷ a) (d ∷ b) = c == d && same a b

pub same→eq : (a b : Text) → same a b ≡ true → a ≡ b
unfolding same
same→eq [] [] h = refl
same→eq [] (d ∷ b) h = cc
same→eq (c ∷ a) [] h = cc
same→eq (c ∷ a) (d ∷ b) h =
    let (p, q) = and_true _ _ h in ap₂ (λ x y. x ∷ y) ((==_iff c d).0 p) (same→eq a b q)

pub same_refl : (a : Text) → same a a ≡ true
unfolding same
same_refl [] = refl
same_refl (c ∷ a) = ground (arith, same_refl a)

pub same_iff : (a b : Text) → (same a b ≡ true) ↔ (a ≡ b)
same_iff a b = (same→eq a b, λ e. subst_same a b e)
  where
    subst_same : (x y : Text) → x ≡ y → same x y ≡ true
    subst_same x y e = rw e (same_refl y)

-- `t in {...}` for a set of texts.
unfoldable pub one_of : Text → List Text → Bool
one_of t [] = false
one_of t (s ∷ set) = same t s || one_of t set

unfoldable pub starts_with : Text → Text → Bool
starts_with t [] = true
starts_with [] (c ∷ p) = false
starts_with (d ∷ t) (c ∷ p) = d == c && starts_with t p

-- `needle in haystack` for texts.
unfoldable pub has_infix : Text → Text → Bool
unfolding starts_with
has_infix needle [] = starts_with [] needle
has_infix needle (c ∷ t) = starts_with (c ∷ t) needle || has_infix needle t

-- `chr(n) in t`
unfoldable pub has_char : ℕ → Text → Bool
has_char n = any (λ c. c == n)

-- `t.replace(chr(a), chr(b))`
unfoldable pub replace_char : ℕ → ℕ → Text → Text
replace_char a b = map (λ c. if c == a then b else c)

-- `t.split(chr(sep))`, which never returns an empty list: the first piece and the others.
push_front : ℕ → Text × List Text → Text × List Text
push_front c (first, rest) = (c ∷ first, rest)

new_piece : Text × List Text → Text × List Text
new_piece (first, rest) = ([], first ∷ rest)

unfoldable pub split_first : ℕ → Text → Text × List Text
unfolding push_front new_piece
split_first sep [] = ([], [])
split_first sep (c ∷ t) =
    let rest = split_first sep t in if c == sep then new_piece rest else push_front c rest

unfoldable pub split : ℕ → Text → List Text
unfolding split_first
split sep t = (split_first sep t).0 ∷ (split_first sep t).1

-- `t.encode("utf-8", errors="strict")` raises exactly at a lone surrogate.
unfoldable pub is_surrogate : ℕ → Bool
is_surrogate c = leb 0xD800 c && leb c 0xDFFF

unfoldable pub utf8_encodable : Text → Bool
unfolding is_surrogate
utf8_encodable t = not (any is_surrogate t)

-- `str(n)` for a natural number; `n + 1` rounds are enough, since a round divides by ten.
decimal_from : ℕ → ℕ → Text → Text
decimal_from zero n acc = acc
decimal_from (suc fuel) n acc =
    let more = decimal_from fuel (n / 10) ((48 + n % 10) ∷ acc) in
    if ltb n 10 then (48 + n) ∷ acc else more

unfoldable pub decimal : ℕ → Text
unfolding decimal_from
decimal n = decimal_from (suc n) n []

-- `t.strip()`: the characters for which `str.isspace` holds.
unfoldable pub is_space : ℕ → Bool
is_space c =
    (leb 9 c && leb c 13)
    || (leb 28 c && leb c 32)
    || c == 0x85
    || c == 0xA0
    || c == 0x1680
    || (leb 0x2000 c && leb c 0x200A)
    || c == 0x2028
    || c == 0x2029
    || c == 0x202F
    || c == 0x205F
    || c == 0x3000

unfoldable pub strip_left : Text → Text
unfolding is_space
strip_left [] = []
strip_left (c ∷ t) = let rest = strip_left t in if is_space c then rest else c ∷ t

unfoldable pub strip : Text → Text
unfolding strip_left
strip t = reverse (strip_left (reverse (strip_left t)))

-- `t.rstrip(chr(n))`
strip_char : ℕ → Text → Text
strip_char n [] = []
strip_char n (c ∷ t) = let rest = strip_char n t in if c == n then rest else c ∷ t

unfoldable pub rstrip_char : ℕ → Text → Text
unfolding strip_char
rstrip_char n t = reverse (strip_char n (reverse t))

unfoldable pub is_digit : ℕ → Bool
is_digit c = leb b'0' c && leb c b'9'

unfoldable pub is_lower_hex : ℕ → Bool
unfolding is_digit
is_lower_hex c = is_digit c || (leb b'a' c && leb c b'f')

unfoldable pub is_alphanumeric : ℕ → Bool
unfolding is_digit
is_alphanumeric c = is_digit c || (leb b'a' c && leb c b'z') || (leb b'A' c && leb c b'Z')

-- A text that is appended under a test.
unfoldable pub when : Bool → Text → List Text
when true t = t ∷ []
when false t = []

-- `dict.fromkeys(...)`, from the keys that stand already.
unfoldable pub unique : List Text → List Text → List Text
unique seen [] = []
unique seen (t ∷ ts) =
    let skipped = unique seen ts in
    let taken = t ∷ unique (t ∷ seen) ts in if one_of t seen then skipped else taken

unfoldable pub same_texts : List Text → List Text → Bool
unfolding same
same_texts [] [] = true
same_texts (t ∷ ts) (u ∷ us) = same t u && same_texts ts us
same_texts _ _ = false

-- `a <= b` on texts, by code points.
unfoldable pub le_text : Text → Text → Bool
le_text [] b = true
le_text (c ∷ a) [] = false
le_text (c ∷ a) (d ∷ b) = ltb c d || (c == d && le_text a b)

unfoldable pub insert : Text → List Text → List Text
unfolding le_text
insert t [] = t ∷ []
insert t (u ∷ us) = let rest = insert t us in if le_text t u then t ∷ u ∷ us else u ∷ rest

-- `sorted(ts)`
unfoldable pub sort_texts : List Text → List Text
unfolding insert
sort_texts [] = []
sort_texts (t ∷ ts) = insert t (sort_texts ts)
