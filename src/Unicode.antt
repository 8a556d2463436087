-- ===== src/Unicode.antt =====
-- What the program uses of `str` on input bytes: `from_utf8`, `trim`, `lines` and `contains`.
pub mod Words
pub mod Utf16
use webtoken.Common.{
  ◌<◌, All, ◌≡◌, refl, arith, ℕ, zero, suc, Bool, true, false, ◌&&◌, ◌||◌, List, [], ◌∷◌, ◌++◌,
  Bytes, Text, leb, ◌==◌, if◌then◌else◌, starts_with,
}

abbrev pub is_between : ℕ → ℕ → ℕ → Bool
is_between lo hi b = leb lo b && leb b hi

abbrev pub is_continuation : ℕ → Bool
is_continuation b = is_between 0x80 0xBF b

-- The range of the second byte behind a first byte of three or four.
abbrev second_of : ℕ → ℕ → Bool
second_of b c =
    if b == 0xE0
    then is_between 0xA0 0xBF c
    else if b == 0xED
    then is_between 0x80 0x9F c
    else if b == 0xF0
    then is_between 0x90 0xBF c
    else if b == 0xF4
    then is_between 0x80 0x8F c
    else is_continuation c

-- `utf8_from k` reads the `k` continuation bytes that are left of a character.
utf8_from : ℕ → Bytes → Bool
utf8_from zero [] = true
utf8_from (suc k) [] = false
utf8_from (suc k) (c ∷ cs) = let rest = utf8_from k cs in is_continuation c && rest
utf8_from zero (b ∷ []) = leb b 0x7F
utf8_from zero (b ∷ c ∷ cs) =
    let after_one = utf8_from 0 (c ∷ cs) in
    let after_two = utf8_from 0 cs in
    let after_three = utf8_from 1 cs in
    let after_four = utf8_from 2 cs in
    if leb b 0x7F
    then after_one
    else if is_between 0xC2 0xDF b
    then is_continuation c && after_two
    else if is_between 0xE0 0xEF b
    then second_of b c && after_three
    else if is_between 0xF0 0xF4 b
    then second_of b c && after_four
    else false

-- `std::str::from_utf8(bytes).is_ok()`
unfoldable pub is_utf8 : Bytes → Bool
unfolding utf8_from
is_utf8 bytes = utf8_from 0 bytes

-- The characters with the property White_Space that are three bytes long.
abbrev pub is_wide_space : ℕ → ℕ → ℕ → Bool
is_wide_space a b c =
    a == 0xE1 && (b == 0x9A && c == 0x80)
    || (a == 0xE2
          && (b == 0x80 && (is_between 0x80 0x8A c || (c == 0xA8 || (c == 0xA9 || c == 0xAF))))
        || (a == 0xE2 && (b == 0x81 && c == 0x9F) || a == 0xE3 && (b == 0x80 && c == 0x80)))

abbrev pub is_space : ℕ → Bool
is_space b = is_between 0x09 0x0D b || b == 0x20

abbrev pub is_two_byte_space : ℕ → ℕ → Bool
is_two_byte_space a b = a == 0xC2 && (b == 0x85 || b == 0xA0)

unfoldable pub trim_start : Text → Text
trim_start [] = []
trim_start (a ∷ []) = if is_space a then [] else a ∷ []
trim_start (a ∷ b ∷ []) =
    let rest = trim_start (b ∷ []) in
    if is_space a then rest else if is_two_byte_space a b then [] else a ∷ b ∷ []
trim_start (a ∷ b ∷ c ∷ cs) =
    let after_one = trim_start (b ∷ c ∷ cs) in
    let after_two = trim_start (c ∷ cs) in
    let after_three = trim_start cs in
    if is_space a
    then after_one
    else if is_two_byte_space a b
    then after_two
    else if is_wide_space a b c
    then after_three
    else a ∷ b ∷ c ∷ cs

abbrev reverse_onto : Text → Text → Text
reverse_onto acc [] = acc
reverse_onto acc (c ∷ cs) = reverse_onto (c ∷ acc) cs

-- `trim_start` on the reversed bytes.
trim_reversed : Text → Text
trim_reversed [] = []
trim_reversed (a ∷ []) = if is_space a then [] else a ∷ []
trim_reversed (b ∷ a ∷ []) =
    let rest = trim_reversed (a ∷ []) in
    if is_space b then rest else if is_two_byte_space a b then [] else b ∷ a ∷ []
trim_reversed (c ∷ b ∷ a ∷ cs) =
    let after_one = trim_reversed (b ∷ a ∷ cs) in
    let after_two = trim_reversed (a ∷ cs) in
    let after_three = trim_reversed cs in
    if is_space c
    then after_one
    else if is_two_byte_space b c
    then after_two
    else if is_wide_space a b c
    then after_three
    else c ∷ b ∷ a ∷ cs

-- str::trim
unfoldable pub trim : Text → Text
unfolding trim_reversed
trim s = reverse_onto [] (trim_reversed (reverse_onto [] (trim_start s)))

-- str::contains
unfoldable pub contains_text : Text → Text → Bool
contains_text w [] = starts_with w []
contains_text w (c ∷ cs) = let later = contains_text w cs in starts_with w (c ∷ cs) || later

-- A line without the `\r` before its end.
unfoldable pub without_cr : Text → Text
without_cr [] = []
without_cr (c ∷ []) = if c == 0x0D then [] else c ∷ []
without_cr (c ∷ d ∷ cs) = c ∷ without_cr (d ∷ cs)

-- `lines_from line s`, with the line read so far; a last line without its end counts unless it is empty.
lines_from : Text → Text → List Text
lines_from [] [] = []
lines_from (l ∷ line) [] = (l ∷ line) ∷ []
lines_from line (c ∷ cs) =
    let ended = lines_from [] cs in
    let longer = lines_from (line ++ c ∷ []) cs in
    if c == 0x0A then without_cr line ∷ ended else longer

-- str::lines
unfoldable pub lines : Text → List Text
unfolding lines_from
lines s = lines_from [] s

abbrev pub IsAscii : ℕ → Type 0
IsAscii c = c < 0x80

utf8_from-IsAscii : (s : Text) → All IsAscii s → utf8_from 0 s ≡ true
unfolding utf8_from
utf8_from-IsAscii [] h = refl
utf8_from-IsAscii (b ∷ []) h = ground (arith, h.0)
utf8_from-IsAscii (b ∷ c ∷ cs) h = ground (arith, h.0, utf8_from-IsAscii (c ∷ cs) h.1)

-- ASCII is UTF-8.
pub is_utf8-IsAscii : (s : Text) → All IsAscii s → is_utf8 s ≡ true
unfolding is_utf8
is_utf8-IsAscii s h = utf8_from-IsAscii s h
