-- ===== src/X509/Time/Calendar.antt =====
-- The time of parse_asn1_time against the calendar: the day number of a date, in closed form.
use webtoken.Common.{
  ℕ, zero, suc, ◌+◌, ◌-◌, ◌*◌, ◌/◌, ◌%◌, ◌^◌, ◌≤◌, ◌<◌, ◌≡◌, refl, ap, Bool, true, false, not, ◌&&◌,
  ◌||◌, [], ◌∷◌, ◌++◌, some, Text, Result, ok, panic, ◌>>=◌, ltb, leb, ◌==◌, if◌then◌else◌, All,
  arith,
}
use webtoken.Unicode.{is_continuation, IsAscii, is_utf8-IsAscii}
use webtoken.Unicode.Words.{slice, is_char_boundary}
use webtoken.X509.Time.{
  digits_from, unwrap_or, parse_u64, number_at, fields_behind, time_fields, parse_asn1_time,
  TimeFields, is_leap, days_of_years, days_in_month, days_of_months, timestamp,
}

-- The days before a year, from the year 1 on.
abbrev pub days_before_year : ℕ → ℕ
days_before_year y = let p = y - 1 in p * 365 + p / 4 - p / 100 + p / 400

-- The days before a month that is not in a leap year.
abbrev pub days_before_month : ℕ → ℕ
days_before_month m = (367 * m - 362) / 12 - (if leb m 2 then 0 else 2)

year_step :
    (y : ℕ)
    → 1 ≤ y
    → days_before_year (suc y) ≡ days_before_year y + (if is_leap y then 366 else 365)
year_step y h = ground arith

days_of_years-closed :
    (left y : ℕ) → 1 ≤ y → days_of_years left y + days_before_year y ≡ days_before_year (y + left)
unfolding days_of_years
days_of_years-closed zero y h = rw none_left (omega arith)
  where
    none_left : y + 0 ≡ y
    none_left = omega arith
days_of_years-closed (suc left) y h =
    let rest = days_of_years-closed left (suc y) (omega arith) in
    let next : y + suc left ≡ suc y + left = omega arith in
    rw next (omega (arith, rest, year_step y h))

-- The days before a month of a year.
abbrev pub days_before : ℕ → ℕ → ℕ
days_before y m = days_before_month m + (if is_leap y && ltb 2 m then 1 else 0)

month_days : Bool → ℕ → ℕ → ℕ
month_days leap m dim = if m == 2 && leap then 29 else dim

-- The days before a month, in a leap year or another one.
abbrev pub before : Bool → ℕ → ℕ
before leap m = days_before_month m + (if leap && ltb 2 m then 1 else 0)

-- The length of a month that is not a leap month.
month_length : ℕ → ℕ
month_length m = if m == 2 then 28 else if m == 4 || (m == 6 || (m == 9 || m == 11)) then 30 else 31

days_in_month-eq : (m : ℕ) → 1 ≤ m → m ≤ 12 → days_in_month m ≡ ok (month_length m)
unfolding month_length
days_in_month-eq m lo hi = ground arith

month_step :
    (leap : Bool) (m : ℕ)
    → 1 ≤ m
    → m ≤ 12
    → before leap (suc m) ≡ before leap m + month_days leap m (month_length m)
unfolding month_days month_length
month_step true m lo hi = ground arith
month_step false m lo hi = ground arith

days_of_months-closed :
    (y left m : ℕ)
    → 1 ≤ m
    → m + left ≤ 13
    → (n : ℕ) × (days_of_months y left m ≡ ok n)
      × (n + before (is_leap y) m ≡ before (is_leap y) (m + left))
unfolding days_of_months month_days
days_of_months-closed y zero m lo hi = (0, refl, rw none_left (omega arith))
  where
    none_left : m + 0 ≡ m
    none_left = omega arith
days_of_months-closed y (suc left) m lo hi =
    let (n, returns, sum) = days_of_months-closed y left (suc m) (omega arith) (omega arith) in
    let next : m + suc left ≡ suc m + left = omega arith in
    let step = month_step (is_leap y) m lo (omega arith) in
    (
      month_days (is_leap y) m (month_length m) + n,
      rw (days_in_month-eq m lo (omega arith), returns) refl,
      rw next (omega (arith, sum, step)),
    )

-- The day of a date, counted from 1970-01-01 as day 0; 719162 days are before it.
abbrev pub day_number : TimeFields → ℕ
day_number t = days_before_year t.year + before (is_leap t.year) t.month + (t.day - 1) - 719162

pub record IsDate (t : TimeFields) : Type 0 where
  pub year_in : (1970 ≤ t.year) × (t.year ≤ 9999)
  pub month_in : (1 ≤ t.month) × (t.month ≤ 12)
  pub day_in : (1 ≤ t.day) × (t.day ≤ 31)
  pub time_in : (t.hour ≤ 99) × (t.minute ≤ 99) × (t.second ≤ 99)

-- The seconds since 1970 of a date and a time.
abbrev pub seconds : TimeFields → ℕ
seconds t = day_number t * 86400 + t.hour * 3600 + t.minute * 60 + t.second

-- The last lines of parse_asn1_time: nothing wraps around.
total :
    (years months all_years day h m s : ℕ)
    → years + 719162 ≡ all_years
    → all_years ≤ 4000000
    → months ≤ 400
    → 1 ≤ day
    → day ≤ 31
    → h ≤ 99
    → m ≤ 99
    → s ≤ 99
    → ((years + months + (day + 2 ^ 64 - 1) % 2 ^ 64) % 2 ^ 64 * 86400 + h * 3600 + m * 60 + s)
        % 2 ^ 64
      ≡ (all_years + months + (day - 1) - 719162) * 86400 + h * 3600 + m * 60 + s
total years months all_years day h m s e b b2 d1 d2 hh hm hs = omega arith

before_bound : (leap : Bool) (m : ℕ) → m ≤ 12 → before leap m ≤ 400
before_bound leap m h = ground arith

years_bound : (y : ℕ) → y ≤ 9999 → days_before_year y ≤ 4000000
years_bound y h = omega arith

first_month : (leap : Bool) → before leap 1 ≡ 0
first_month true = refl
first_month false = refl

pub timestamp-seconds : (t : TimeFields) → IsDate t → timestamp t ≡ ok (seconds t)
unfolding timestamp
timestamp-seconds t v =
    let (n, returns, sum) =
      days_of_months-closed t.year (t.month - 1) 1 (omega arith) (omega (arith, v.month_in)) in
    let same_month : 1 + (t.month - 1) ≡ t.month = omega (arith, v.month_in) in
    let same_year : 1970 + (t.year - 1970) ≡ t.year = omega (arith, v.year_in) in
    let years = rw same_year at (days_of_years-closed (t.year - 1970) 1970 (omega arith)) in
    let months : n ≡ before (is_leap t.year) t.month =
      omega (arith, first_month (is_leap t.year), ap (before (is_leap t.year)) same_month, sum) in
    rw (returns, months)
      (ap ok (
        total _ _ (days_before_year t.year) t.day t.hour t.minute t.second years
          (years_bound t.year v.year_in.1) (before_bound _ t.month v.month_in.1) v.day_in.0
          v.day_in.1 v.time_in.0 v.time_in.1 v.time_in.2))

-- Two and four decimal digits.
abbrev pub two : ℕ → Text
two n = (b'0' + n / 10 % 10) ∷ (b'0' + n % 10) ∷ []

abbrev pub four : ℕ → Text
four n = two (n / 100) ++ two n

-- YYYYMMDDhhmmssZ
abbrev pub generalized : TimeFields → Text
generalized t =
    four t.year
    ++ (two t.month ++ (two t.day ++ (two t.hour ++ (two t.minute ++ (two t.second ++ b'Z' ∷ [])))))

digits_from-two : (acc n : ℕ) → n ≤ 99 → digits_from acc (two n) ≡ some (acc * 100 + n)
unfolding digits_from
digits_from-two acc n h = ground arith

ascii : (c : ℕ) → c < 0x80 → is_continuation c ≡ false
ascii c h = ground arith

-- What `number_at` computes to at a place that is known.
abbrev parsed_at : ℕ → ℕ → Text → ℕ → Result Text ℕ
parsed_at a c t n =
    (if not (is_continuation a) && not (is_continuation c) then ok t else panic) >>= λ found.
    ok (unwrap_or (parse_u64 found) n)

two_parsed :
    (value c n : ℕ)
    → value ≤ 99
    → c < 0x80
    → parsed_at (b'0' + value / 10 % 10) c (two value) n ≡ ok value
unfolding parse_u64
two_parsed value c n h k =
    rw (ascii (b'0' + value / 10 % 10) (omega arith), ascii c k)
      (ground (arith, digits_from-two 0 value h))

four_parsed :
    (value c n : ℕ)
    → value ≤ 9999
    → c < 0x80
    → parsed_at (b'0' + value / 100 / 10 % 10) c (four value) n ≡ ok value
unfolding parse_u64 digits_from
four_parsed value c n h k =
    rw (ascii (b'0' + value / 100 / 10 % 10) (omega arith), ascii c k) (ground arith)

digit : (n : ℕ) → b'0' + n / 10 % 10 < 0x80
digit n = omega arith

fields_read : (t : TimeFields) → IsDate t → time_fields 0x18 (generalized t) ≡ ok t
unfolding time_fields fields_behind number_at slice is_char_boundary
fields_read t v = rw (
  four_parsed t.year (b'0' + t.month / 10 % 10) 1970 v.year_in.1 (digit t.month),
  two_parsed t.month (b'0' + t.day / 10 % 10) 1 (omega (arith, v.month_in)) (digit t.day),
  two_parsed t.day (b'0' + t.hour / 10 % 10) 1 (omega (arith, v.day_in)) (digit t.hour),
  two_parsed t.hour (b'0' + t.minute / 10 % 10) 0 v.time_in.0 (digit t.minute),
  two_parsed t.minute (b'0' + t.second / 10 % 10) 0 v.time_in.1 (digit t.second),
  two_parsed t.second b'Z' 0 v.time_in.2 (omega arith),
)

generalized-IsAscii : (t : TimeFields) → All IsAscii (generalized t)
generalized-IsAscii t = (
  digit (t.year / 100),
  (
    unit (t.year / 100),
    (
      digit t.year,
      (
        unit t.year,
        (
          digit t.month,
          (
            unit t.month,
            (
              digit t.day,
              (
                unit t.day,
                (
                  digit t.hour,
                  (
                    unit t.hour,
                    (
                      digit t.minute,
                      (unit t.minute, (digit t.second, (unit t.second, (omega arith, tt)))),
                    ),
                  ),
                ),
              ),
            ),
          ),
        ),
      ),
    ),
  ),
)
  where
    unit : (n : ℕ) → b'0' + n % 10 < 0x80
    unit n = omega arith

-- On the text of a GeneralizedTime of the years 1970 to 9999, parse_asn1_time returns the seconds since
-- 1970, with the day number of the calendar in closed form: no year, month or leap day is missed, and
-- nothing wraps around.
pub parse_asn1_time-generalized :
    (t : TimeFields) → IsDate t → parse_asn1_time 0x18 (generalized t) ≡ ok (seconds t)
unfolding parse_asn1_time
parse_asn1_time-generalized t v =
    rw (is_utf8-IsAscii (generalized t) (generalized-IsAscii t), fields_read t v)
      (timestamp-seconds t v)
