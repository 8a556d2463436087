-- ===== src/X509/Time.antt =====
-- parse_asn1_time of src/crypto_parsing.rs. The numbers are `u64`; where the source subtracts or multiplies
-- past the range, a release build wraps around.
pub mod Calendar
use webtoken.Common.{
  ℕ, zero, suc, ◌+◌, ◌-◌, ◌*◌, ◌/◌, ◌%◌, ◌^◌, ◌≤◌, ◌<◌, bit_and, ◌≡◌, refl, sym, ap, ◌∙◌, ◌≢◌, ◌↔◌,
  ◌⊎◌, inl, inr, Bool, true, false, not, ◌&&◌, ◌||◌, List, [], ◌∷◌, ◌++◌, append-nil, append_assoc,
  Option, none, some, Bytes, Text, bit_and_low, IsByte, AreBytes, Result, ok, err, panic, ◌>>=◌,
  ◌>>◌, guard, ok_or, map_err, >>=-eq-ok, guard-eq-ok, ltb, leb, ◌==◌, if◌then◌else◌, ==_iff,
  ltb-false, ltb-true, Bool-cases, Option-cases, and_true, length, take, drop, All, length-append,
  take-append-drop, length-take, length-drop, take-length_append, drop-length_append, drop-drop,
  drop-past, All-append, append_inj, lit, eqb, is, starts_with, eqb_refl, eqb→eq, eqb_iff, is→eq,
  is_lit, starts_with-append, to_be_bytes, to_le_bytes, from_be_bytes, length-to_le_bytes,
  length-to_be_bytes, to_le_bytes_inj, NoDot, ◌⊙◌, split_dots, split_dots-join, split_dots-NoDot,
  arith,
}
use webtoken.Unicode.{is_utf8}
use webtoken.Unicode.Words.{slice}

abbrev pub is_digit : ℕ → Bool
is_digit c = leb b'0' c && leb c b'9'

-- The digits of a number, for texts of at most four characters.
unfoldable pub digits_from : ℕ → Text → Option ℕ
digits_from acc [] = some acc
digits_from acc (c ∷ cs) =
    let rest = digits_from (acc * 10 + (c - b'0')) cs in if is_digit c then rest else none

-- `parse::<u64>()`: a sign `+` may stand before the digits.
unfoldable pub parse_u64 : Text → Option ℕ
parse_u64 [] = none
parse_u64 (c ∷ []) = digits_from 0 (c ∷ [])
parse_u64 (c ∷ d ∷ ds) = if c == b'+' then digits_from 0 (d ∷ ds) else digits_from 0 (c ∷ d ∷ ds)

abbrev pub unwrap_or : Option ℕ → ℕ → ℕ
unwrap_or none n = n
unwrap_or (some v) n = v

-- `s[from..to].parse().unwrap_or(n)`
unfoldable pub number_at : ℕ → ℕ → ℕ → Text → Result Text ℕ
number_at from to n s = slice from to s >>= λ t. ok (unwrap_or (parse_u64 t) n)

abbrev century : ℕ → ℕ
century y2 = if ltb y2 50 then 2000 + y2 else 1900 + y2

pub record TimeFields : Type 0 where
  pub year : ℕ
  pub month : ℕ
  pub day : ℕ
  pub hour : ℕ
  pub minute : ℕ
  pub second : ℕ

-- The five numbers behind the year, from an offset on.
unfoldable pub fields_behind : ℕ → ℕ → Text → Result Text TimeFields
fields_behind y i s = do
  mo ← number_at i (i + 2) 1 s
  d ← number_at (i + 2) (i + 4) 1 s
  h ← number_at (i + 4) (i + 6) 0 s
  m ← number_at (i + 6) (i + 8) 0 s
  sec ← number_at (i + 8) (i + 10) 0 s
  ok record { year = y; month = mo; day = d; hour = h; minute = m; second = sec }

-- UTCTime (0x17) and GeneralizedTime (0x18).
unfoldable pub time_fields : ℕ → Text → Result Text TimeFields
time_fields tag s =
    if tag == 0x17
    then (number_at 0 2 0 s >>= λ y2. fields_behind (century y2) 2 s)
    else if tag == 0x18
    then (number_at 0 4 1970 s >>= λ y. fields_behind y 4 s)
    else err (lit "Unknown time tag")

abbrev pub is_leap : ℕ → Bool
is_leap y = (y % 4 == 0 && not (y % 100 == 0)) || y % 400 == 0

-- The loop over the years from `year` on, with the number of those left.
unfoldable pub days_of_years : ℕ → ℕ → ℕ
days_of_years zero year = 0
days_of_years (suc left) year = (if is_leap year then 366 else 365) + days_of_years left (suc year)

abbrev pub days_in_month : ℕ → Result Text ℕ
days_in_month month =
    if ltb 12 month
    then panic
    else if month == 0
    then ok 0
    else if month == 2
    then ok 28
    else if month == 4 || (month == 6 || (month == 9 || month == 11))
    then ok 30
    else ok 31

-- The loop over the months from `month` on; a month above 12 is out of range of the table.
unfoldable pub days_of_months : ℕ → ℕ → ℕ → Result Text ℕ
days_of_months y zero month = ok 0
days_of_months y (suc left) month = do
  dim ← days_in_month month
  rest ← days_of_months y left (suc month)
  ok ((if month == 2 && is_leap y then 29 else dim) + rest)

-- The seconds since 1970.
unfoldable pub timestamp : TimeFields → Result Text ℕ
timestamp t = do
  months ← days_of_months t.year (t.month - 1) 1
  let days = (days_of_years (t.year - 1970) 1970 + months + (t.day + 2 ^ 64 - 1) % 2 ^ 64) % 2 ^ 64
  ok ((days * 86400 + t.hour * 3600 + t.minute * 60 + t.second) % 2 ^ 64)

-- parse_asn1_time
unfoldable pub parse_asn1_time : ℕ → Bytes → Result Text ℕ
parse_asn1_time tag content = do
  guard (is_utf8 content) (lit "Invalid time string")
  t ← time_fields tag content
  timestamp t
