-- ===== src/Jwt/Claims.antt =====
-- src/jwt.rs, lines 58 to 99 and 149 to 297: the claim checks.
pub mod Acceptable
use webtoken.Common.{
  ℕ, zero, suc, ◌+◌, ◌-◌, ◌*◌, ◌/◌, ◌%◌, ◌^◌, ◌≤◌, ◌<◌, bit_and, ◌≡◌, refl, sym, ap, ◌∙◌, ◌≢◌, ◌↔◌,
  ◌⊎◌, inl, inr, Bool, true, false, not, ◌&&◌, ◌||◌, List, [], ◌∷◌, ◌++◌, append-nil, append_assoc,
  Option, none, some, Bytes, Text, bit_and_low, IsByte, AreBytes, Result, ok, err, panic, ◌>>=◌,
  ◌>>◌, guard, ok_or, map_err, >>=-eq-ok, guard-eq-ok, ltb, leb, ◌==◌, if◌then◌else◌, ==_iff,
  ltb-false, ltb-true, Bool-cases, Option-cases, and_true, length, take, drop, All, length-append,
  take-append-drop, length-take, length-drop, take-length_append, drop-length_append, All-append,
  append_inj, lit, eqb, is, starts_with, eqb_refl, eqb→eq, eqb_iff, is→eq, is_lit,
  starts_with-append, to_be_bytes, to_le_bytes, from_be_bytes, length-to_le_bytes,
  length-to_be_bytes, to_le_bytes_inj, NoDot, ◌⊙◌, split_dots, split_dots-join, split_dots-NoDot,
  arith,
}
use webtoken.Errors.{
  WebtokenError, decode_error, invalid_issued_at, expired_signature, immature_signature,
  missing_required_claim, invalid_issuer, invalid_audience, invalid_subject, invalid_jti,
}
use webtoken.Json.{
  Value, Values, null, bool, number, string, array, object, nil, cons, get, is_string,
}

-- The type `f64` and what the code does with it: comparison, `+`, `-`, `as f64`, the readings of a JSON
-- number (`Value::as_f64`), of a text (`str::parse`) and of an RFC 3339 date, in seconds.
pub record Floats (F : Type 0) : Type 0 where
  pub lt : F → F → Bool
  pub add : F → F → F
  pub sub : F → F → F
  pub of_u64 : ℕ → F
  pub as_f64 : Text → Option F
  pub parse : Text → Option F
  pub rfc3339 : Text → Option F

-- `Validation`; a `HashSet` is the list of its elements, in the order in which it is walked.
pub record Validation : Type 0 where
  pub leeway : ℕ
  pub required_spec_claims : List Text
  pub algorithms : List Text

pub record Flags : Type 0 where
  pub check_iat : Bool
  pub check_exp : Bool
  pub check_nbf : Bool
  pub check_aud : Bool
  pub check_iss : Bool
  pub check_sub : Bool
  pub strict_aud : Bool

pub record Expected : Type 0 where
  pub aud : Option (List Text)
  pub iss : Option (List Text)
  pub sub : Option Text

-- HashSet::contains, `iter().any(|a| a == alg)`
unfoldable pub contains : List Text → Text → Bool
contains [] s = false
contains (x ∷ xs) s = eqb x s || contains xs s

abbrev or_some {ℓ} : {A : Type ℓ} → Option A → Option A → Option A
or_some (some a) other = some a
or_some none other = other

module _ {F : Type 0} (fl : Floats F) where
  -- get_numeric_date
  unfoldable pub get_numeric_date : Value → Option F
  get_numeric_date (number n) = fl.as_f64 n
  get_numeric_date (string s) = or_some (fl.parse s) (fl.rfc3339 s)
  get_numeric_date v = none

  -- `claims.get(name).and_then(get_numeric_date)`
  unfoldable pub date_of : Option Value → Option F
  date_of none = none
  date_of (some v) = get_numeric_date v

  -- `get_numeric_date(val).is_none()` is an error.
  abbrev pub is_number : WebtokenError → Option F → Result WebtokenError (Unit {0})
  is_number e none = err e
  is_number e (some t) = ok tt

  -- One round of `check_numeric_claims`.
  unfoldable pub check_numeric : Option Value → WebtokenError → Result WebtokenError (Unit {0})
  check_numeric none e = ok tt
  check_numeric (some v) e = is_number e (get_numeric_date v)

  -- check_numeric_claims
  unfoldable pub check_numeric_claims : Value → Result WebtokenError (Unit {0})
  check_numeric_claims claims = do
    check_numeric (get claims (lit "exp")) (decode_error (lit "exp must be a number"))
    check_numeric (get claims (lit "iat")) (invalid_issued_at (lit "iat must be a number"))
    check_numeric (get claims (lit "nbf")) (decode_error (lit "nbf must be a number"))

  -- The expiration test, on the date that was read.
  unfoldable pub check_expiration : F → Validation → Option F → Result WebtokenError (Unit {0})
  check_expiration now val (some t) =
      if fl.lt t (fl.sub now (fl.of_u64 val.leeway)) then err expired_signature else ok tt
  check_expiration now val none =
      if contains val.required_spec_claims (lit "exp")
      then err (missing_required_claim (lit "exp"))
      else ok tt

  -- The tests of nbf and of iat.
  unfoldable pub check_not_future : F → Validation → Option F → Result WebtokenError (Unit {0})
  check_not_future now val (some t) =
      if fl.lt (fl.add now (fl.of_u64 val.leeway)) t then err immature_signature else ok tt
  check_not_future now val none = ok tt

-- The issuer test.
unfoldable pub check_issuer :
    Validation → Option (List Text) → Option Value → Result WebtokenError (Unit {0})
check_issuer val (some issuers) (some (string s)) =
    if contains issuers s then ok tt else err (invalid_issuer (lit "Invalid issuer"))
check_issuer val (some issuers) (some _) = err (invalid_issuer (lit "Invalid issuer"))
check_issuer val (some issuers) none = err (missing_required_claim (lit "iss"))
check_issuer val none none =
    if contains val.required_spec_claims (lit "iss")
    then err (missing_required_claim (lit "iss"))
    else ok tt
check_issuer val none (some v) =
    if is_string v then ok tt else err (invalid_issuer (lit "Invalid issuer"))

-- The loop over the array in `validate_audience`.
unfoldable pub audience_texts : Values → Result WebtokenError (List Text)
audience_texts nil = ok []
audience_texts (cons (string s) rest) = do texts ← audience_texts rest; ok (s ∷ texts)
audience_texts (cons _ rest) = err (invalid_audience (lit "Invalid claim format in token"))

-- `token_auds.iter().any(|ta| expected_auds.contains(ta))`
unfoldable pub any_expected : List Text → List Text → Bool
any_expected expected [] = false
any_expected expected (t ∷ ts) = contains expected t || any_expected expected ts

abbrev pub matching : List Text → List Text → Result WebtokenError (Unit {0})
matching expected texts =
    if any_expected expected texts then ok tt else err (invalid_audience (lit "Invalid audience"))

abbrev pub strict_audience : List Text → Option Value → Result WebtokenError (Unit {0})
strict_audience expected (some (string s)) =
    if contains expected s
    then ok tt
    else err (invalid_audience (lit "Audience doesn't match (strict)"))
strict_audience expected (some null) = err (missing_required_claim (lit "aud"))
strict_audience expected none = err (missing_required_claim (lit "aud"))
strict_audience expected (some _) =
    err (invalid_audience (lit "Invalid claim format in token (strict)"))

abbrev pub standard_audience : List Text → Option Value → Result WebtokenError (Unit {0})
standard_audience expected none = err (missing_required_claim (lit "aud"))
standard_audience expected (some null) = err (missing_required_claim (lit "aud"))
standard_audience expected (some (string s)) = matching expected (s ∷ [])
standard_audience expected (some (array vs)) = do texts ← audience_texts vs; matching expected texts
standard_audience expected (some _) = err (invalid_audience (lit "Invalid claim format in token"))

-- validate_audience
unfoldable pub validate_audience : Option Value → List Text → Bool → Result WebtokenError (Unit {0})
validate_audience token_aud expected true =
    if length expected == 1
    then strict_audience expected token_aud
    else err (invalid_audience (lit "Invalid audience (strict)"))
validate_audience token_aud expected false = standard_audience expected token_aud

abbrev is_empty : Text → Bool
is_empty [] = true
is_empty (c ∷ cs) = false

-- The match on `aud` where no audience is expected.
unfoldable pub is_truthy : Value → Bool
is_truthy null = false
is_truthy (string s) = not (is_empty s)
is_truthy (array nil) = false
is_truthy (array (cons v vs)) = true
is_truthy (bool b) = b
is_truthy (number n) = true
is_truthy (object m) = true

-- The audience test.
unfoldable pub check_audience :
    Validation → Option (List Text) → Bool → Option Value → Result WebtokenError (Unit {0})
check_audience val (some auds) strict aud = validate_audience aud auds strict
check_audience val none strict (some aud) =
    if is_truthy aud then err (invalid_audience (lit "Invalid audience")) else ok tt
check_audience val none strict none =
    if contains val.required_spec_claims (lit "aud")
    then err (missing_required_claim (lit "aud"))
    else ok tt

-- The subject test.
unfoldable pub check_subject : Option Text → Option Value → Result WebtokenError (Unit {0})
check_subject (some sub) (some (string s)) =
    if eqb s sub then ok tt else err (invalid_subject (lit "Invalid subject"))
check_subject (some sub) _ = err (invalid_subject (lit "Invalid subject: must be a string"))
check_subject none (some v) =
    if is_string v then ok tt else err (invalid_subject (lit "Invalid subject: must be a string"))
check_subject none none = ok tt

-- The jti test.
unfoldable pub check_jti : Option Value → Result WebtokenError (Unit {0})
check_jti none = ok tt
check_jti (some v) =
    if is_string v then ok tt else err (invalid_jti (lit "Invalid jti: must be a string"))

-- One round of the last loop of `validate_claims`.
unfoldable pub check_present : Text → Option Value → Result WebtokenError (Unit {0})
check_present req none = err (missing_required_claim req)
check_present req (some v) = ok tt

unfoldable pub check_required : Value → List Text → Result WebtokenError (Unit {0})
check_required claims [] = ok tt
check_required claims (req ∷ reqs) = do
  check_present req (get claims req)
  check_required claims reqs

abbrev pub when : Bool → Result WebtokenError (Unit {0}) → Result WebtokenError (Unit {0})
when true check = check
when false check = ok tt

-- validate_claims; `now` is what `current_time` returns.
unfoldable pub validate_claims :
    {F : Type 0}
    → Floats F
    → F
    → Value
    → Validation
    → Flags
    → Expected
    → Result WebtokenError (Unit {0})
validate_claims fl now claims val flags expected = do
  check_numeric_claims fl claims
  when flags.check_exp (check_expiration fl now val (date_of fl (get claims (lit "exp"))))
  when flags.check_nbf (check_not_future fl now val (date_of fl (get claims (lit "nbf"))))
  when flags.check_iss (check_issuer val expected.iss (get claims (lit "iss")))
  when flags.check_aud (check_audience val expected.aud flags.strict_aud (get claims (lit "aud")))
  when flags.check_sub (check_subject expected.sub (get claims (lit "sub")))
  check_jti (get claims (lit "jti"))
  when flags.check_iat (check_not_future fl now val (date_of fl (get claims (lit "iat"))))
  check_required claims val.required_spec_claims
