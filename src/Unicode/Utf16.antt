-- ===== src/Unicode/Utf16.antt =====
-- `String::from_utf16` on the big-endian units of a text.
use webtoken.Common.{
  ℕ, ◌+◌, ◌-◌, ◌*◌, ◌/◌, ◌%◌, Bool, ◌&&◌, ◌||◌, List, [], ◌∷◌, ◌++◌, Option, none, some, Bytes,
  Text, ltb, leb, if◌then◌else◌,
}

-- The UTF-8 bytes of a code point.
unfoldable pub encode_char : ℕ → Text
encode_char cp =
    if ltb cp 0x80
    then cp ∷ []
    else if ltb cp 0x800
    then (0xC0 + cp / 64) ∷ (0x80 + cp % 64) ∷ []
    else if ltb cp 0x10000
    then (0xE0 + cp / 4096) ∷ (0x80 + cp / 64 % 64) ∷ (0x80 + cp % 64) ∷ []
    else (0xF0 + cp / 262144)
      ∷ (0x80 + cp / 4096 % 64)
      ∷ (0x80 + cp / 64 % 64)
      ∷ (0x80 + cp % 64)
      ∷ []

abbrev prefixed : Text → Option Text → Option Text
prefixed t none = none
prefixed t (some rest) = some (t ++ rest)

abbrev is_high : ℕ → Bool
is_high u = leb 0xD800 u && leb u 0xDBFF

abbrev is_low : ℕ → Bool
is_low u = leb 0xDC00 u && leb u 0xDFFF

-- String::from_utf16; a surrogate without its partner is an error.
unfoldable pub from_utf16 : List ℕ → Option Text
from_utf16 [] = some []
from_utf16 (u ∷ []) = if is_high u || is_low u then none else some (encode_char u)
from_utf16 (u ∷ v ∷ units) =
    let after_one = from_utf16 (v ∷ units) in
    let after_two = from_utf16 units in
    if is_low u
    then none
    else if is_high u
    then (if is_low v
        then prefixed (encode_char (0x10000 + (u - 0xD800) * 1024 + (v - 0xDC00))) after_two
        else none)
    else prefixed (encode_char u) after_one

-- `chunks_exact(2)` with `u16::from_be_bytes`.
unfoldable pub be_units : Bytes → List ℕ
be_units [] = []
be_units (a ∷ []) = []
be_units (a ∷ b ∷ bytes) = (a * 256 + b) ∷ be_units bytes
