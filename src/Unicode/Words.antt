-- ===== src/Unicode/Words.antt =====
-- `split_whitespace`, `find` and the whitespace test of `char`, on UTF-8 bytes.
use webtoken.Common.{
  ℕ, zero, suc, ◌-◌, Bool, true, false, not, ◌&&◌, List, [], ◌∷◌, ◌++◌, Option, none, some, Text,
  Result, ok, panic, if◌then◌else◌, take, drop, starts_with,
}
use webtoken.Unicode.{is_space, is_two_byte_space, is_wide_space, is_continuation}

abbrev close : Text → List Text → List Text
close [] words = words
close (c ∷ cs) words = (c ∷ cs) ∷ words

-- `words_from word s`, with the word read so far.
words_from : Text → Text → List Text
words_from word [] = close word []
words_from word (a ∷ []) = if is_space a then close word [] else close (word ++ a ∷ []) []
words_from word (a ∷ b ∷ []) =
    let ended = words_from [] (b ∷ []) in
    let longer = words_from (word ++ a ∷ []) (b ∷ []) in
    if is_space a then close word ended else if is_two_byte_space a b then close word [] else longer
words_from word (a ∷ b ∷ c ∷ cs) =
    let after_one = words_from [] (b ∷ c ∷ cs) in
    let after_two = words_from [] (c ∷ cs) in
    let after_three = words_from [] cs in
    let longer = words_from (word ++ a ∷ []) (b ∷ c ∷ cs) in
    if is_space a
    then close word after_one
    else if is_two_byte_space a b
    then close word after_two
    else if is_wide_space a b c
    then close word after_three
    else longer

-- str::split_whitespace
unfoldable pub split_whitespace : Text → List Text
unfolding words_from
split_whitespace s = words_from [] s

-- `filter(|c| !c.is_whitespace())`
unfoldable pub without_spaces : Text → Text
without_spaces [] = []
without_spaces (a ∷ []) = if is_space a then [] else a ∷ []
without_spaces (a ∷ b ∷ []) =
    let rest = without_spaces (b ∷ []) in
    if is_space a then rest else if is_two_byte_space a b then [] else a ∷ rest
without_spaces (a ∷ b ∷ c ∷ cs) =
    let after_one = without_spaces (b ∷ c ∷ cs) in
    let after_two = without_spaces (c ∷ cs) in
    let after_three = without_spaces cs in
    if is_space a
    then after_one
    else if is_two_byte_space a b
    then after_two
    else if is_wide_space a b c
    then after_three
    else a ∷ after_one

abbrev later_by_one : Option ℕ → Option ℕ
later_by_one none = none
later_by_one (some i) = some (suc i)

-- str::find
unfoldable pub find : Text → Text → Option ℕ
find w [] = if starts_with w [] then some 0 else none
find w (c ∷ cs) =
    let later = find w cs in if starts_with w (c ∷ cs) then some 0 else later_by_one later

-- str::is_char_boundary
unfoldable pub is_char_boundary : Text → ℕ → Bool
is_char_boundary [] zero = true
is_char_boundary [] (suc i) = false
is_char_boundary (c ∷ cs) zero = not (is_continuation c)
is_char_boundary (c ∷ cs) (suc i) = is_char_boundary cs i

-- `&s[from..to]` for constants with `from <= to`; a cut within a character or behind the end panics.
unfoldable pub slice : ℕ → ℕ → Text → Result Text Text
slice from to s =
    if is_char_boundary s from && is_char_boundary s to
    then ok (take (to - from) (drop from s))
    else panic
