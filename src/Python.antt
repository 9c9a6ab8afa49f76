-- ===== src/Python.antt =====
-- What the sources use of the operating system and of library code whose tables or algorithms are
-- no part of the repository, as the fields of one record.
use r_sandbox.Prelude.{ℕ, Bool, Option, List, Text}
use r_sandbox.Prelude.Float.{Float}

-- `urllib.parse.ParseResult` of "//" + target, as far as the sources read it.
pub record Url : Type 0 where
  pub hostname : Option Text
  pub port : Option ℕ
  pub username : Option Text
  pub password : Option Text
  pub path : Text
  pub query : Text
  pub fragment : Text

pub record Python : Type 0 where
  -- `str.lower`, by the Unicode tables
  pub lower : Text → Text
  -- `urlparse` and its `port`; `none` is ValueError from either
  pub urlparse : Text → Option Url
  -- `float(text)`; `none` is ValueError
  pub parse_float : Text → Option Float
  -- the addition of two floats
  pub add_float : Float → Float → Float
  -- `float.hex`
  pub float_hex : Float → Text
  -- `sha256(material).hexdigest()`
  pub sha256_hexdigest : List ℕ → Text
  -- `re.compile(pattern, re.IGNORECASE).search(text)` finds a match
  pub search : (pattern text : Text) → Bool
  -- `str(Path(text).resolve(strict=False))`
  pub resolve : Text → Text
  -- `str(Path(text).resolve(strict=True))`; `none` is an OSError
  pub resolve_strict : Text → Option Text
  -- `ipaddress.ip_address(text)` is an address that is private, loopback or link-local
  pub is_internal_address : Text → Bool
  -- `re.fullmatch(r"\w", chr(c))`, by the Unicode tables
  pub is_word : ℕ → Bool
  -- `repr` of a text, and `format(f, "g")`
  pub repr : Text → Text
  pub format_g : Float → Text
