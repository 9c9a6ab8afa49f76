-- ===== src/Prelude/Paths.antt =====
-- Python's `PurePosixPath` and `posixpath.normpath`, over texts.
use r_sandbox.Prelude.{
  ◌≡◌, refl, Bool, true, not, ◌&&◌, List, [], ◌∷◌, ◌++◌, Text, lit, same, starts_with, split,
  filter, is_empty, any, if◌then◌else◌,
}

pub record PosixPath : Type 0 where
  pub root : Text
  pub names : List Text

-- Two leading slashes, and no third, are a root of their own.
unfoldable pub root_of : Text → Text
root_of t =
    if starts_with t (lit "///")
    then lit "/"
    else if starts_with t (lit "//")
    then lit "//"
    else if starts_with t (lit "/")
    then lit "/"
    else []

unfoldable pub is_name : Text → Bool
is_name t = not (is_empty t) && not (same t (lit "."))

unfoldable pub posix_path : Text → PosixPath
unfolding root_of is_name
posix_path t = record { root = root_of t; names = filter is_name (split b'/' t) }

unfoldable pub join : Text → List Text → Text
join sep [] = []
join sep (t ∷ []) = t
join sep (t ∷ u ∷ ts) = let rest = join sep (u ∷ ts) in t ++ sep ++ rest

-- `str(path)`
unfoldable pub path_text : PosixPath → Text
unfolding join
path_text p = let body = p.root ++ join (lit "/") p.names in if is_empty body then lit "." else body

unfoldable pub is_absolute : PosixPath → Bool
is_absolute p = not (is_empty p.root)

-- `name in path.parts` for a name that is no root.
unfoldable pub has_part : Text → PosixPath → Bool
has_part name p = any (same name) p.names

paths :
    (path_text (posix_path (lit "/output/./a//b/")) ≡ lit "/output/a/b")
    × (path_text (posix_path (lit "//x/..")) ≡ lit "//x/..")
    × (path_text (posix_path (lit "./.")) ≡ lit ".")
    × (has_part (lit "..") (posix_path (lit "a/../b")) ≡ true)
unfolding path_text posix_path lit starts_with split same has_part
paths = (refl, refl, refl, refl)
