-- ===== src/Jwt/Claims/Acceptable.antt =====
-- What an accepted claim set satisfies, stated claim by claim, and that `validate_claims` of
-- src/jwt.rs accepts exactly these.
use webtoken.Common.{
  ◌≡◌, refl, ◌↔◌, Bool, true, false, List, [], ◌∷◌, Option, none, some, Text, Result, ok, err,
  panic, ◌>>=◌, ◌>>◌, length, lit, eqb_iff, arith,
}
use webtoken.Errors.{WebtokenError, decode_error, invalid_issued_at}
use webtoken.Json.{Value, Values, string, array, get, is_string}
use webtoken.Jwt.Claims.{
  Floats, Validation, Flags, Expected, contains, get_numeric_date, date_of, check_numeric,
  check_numeric_claims, check_expiration, check_not_future, check_issuer, audience_texts,
  any_expected, validate_audience, is_truthy, check_audience, check_subject, check_jti,
  check_present, check_required, when, is_number, matching, validate_claims,
}

-- A claim that is there has this property.
abbrev pub IfPresent : (Value → Type 0) → Option Value → Type 0
IfPresent P none = Unit {0}
IfPresent P (some v) = P v

abbrev pub IsText : Value → Type 0
IsText v = is_string v ≡ true

-- The claim is a text among the expected ones.
abbrev pub IsTextIn : List Text → Option Value → Type 0
IsTextIn expected (some (string s)) = contains expected s ≡ true
IsTextIn expected _ = ⊥

-- The texts of an array of nothing but strings have one among the expected ones.
abbrev pub MeetsIn : List Text → Values → Type 0
MeetsIn expected vs =
    (ts : List Text) × (audience_texts vs ≡ ok ts) × (any_expected expected ts ≡ true)

-- The audience claim meets what is expected: strictly, it is one text and one is expected.
abbrev pub MeetsAudience : Bool → List Text → Option Value → Type 0
MeetsAudience true expected aud = (length expected ≡ 1) × IsTextIn expected aud
MeetsAudience false expected (some (string s)) = contains expected s ≡ true
MeetsAudience false expected (some (array vs)) = MeetsIn expected vs
MeetsAudience false expected _ = ⊥

-- The audience claim is acceptable; with no expectation it is absent and not required, or empty.
abbrev pub AudienceFits : Validation → Option (List Text) → Bool → Option Value → Type 0
AudienceFits val (some auds) strict aud = MeetsAudience strict auds aud
AudienceFits val none strict (some aud) = is_truthy aud ≡ false
AudienceFits val none strict none = contains val.required_spec_claims (lit "aud") ≡ false

-- The issuer claim is acceptable.
abbrev pub IssuerFits : Validation → Option (List Text) → Option Value → Type 0
IssuerFits val (some issuers) iss = IsTextIn issuers iss
IssuerFits val none (some v) = IsText v
IssuerFits val none none = contains val.required_spec_claims (lit "iss") ≡ false

-- The subject claim is acceptable.
abbrev pub SubjectFits : Option Text → Option Value → Type 0
SubjectFits (some sub) found = found ≡ some (string sub)
SubjectFits none found = IfPresent IsText found

module _ {F : Type 0} (fl : Floats F) (now : F) where
  -- A date claim that is there reads as a number.
  abbrev pub IsDate : Value → Type 0
  IsDate v = (t : F) × (get_numeric_date fl v ≡ some t)

  -- The token has not expired, by the leeway; without a date the claim is not a required one.
  abbrev pub NotExpired : Validation → Option F → Type 0
  NotExpired val (some t) = fl.lt t (fl.sub now (fl.of_u64 val.leeway)) ≡ false
  NotExpired val none = contains val.required_spec_claims (lit "exp") ≡ false

  -- The date does not lie in the future, by the leeway.
  abbrev pub NotFuture : Validation → Option F → Type 0
  NotFuture val (some t) = fl.lt (fl.add now (fl.of_u64 val.leeway)) t ≡ false
  NotFuture val none = Unit {0}

abbrev pub Under : Bool → Type 0 → Type 0
Under true P = P
Under false P = Unit {0}

abbrev pub AllPresent : Value → List Text → Type 0
AllPresent claims [] = Unit {0}
AllPresent claims (req ∷ reqs) = ((v : Value) × (get claims req ≡ some v)) × AllPresent claims reqs

-- An acceptable claim set: each test under its flag, the dates, jti and the required claims always.
pub record IsAcceptable {F : Type 0} (fl : Floats F) (now : F) (claims : Value) (val : Validation)
    (flags : Flags) (expected : Expected) : Type 0 where
  pub exp_is_date : IfPresent (IsDate fl now) (get claims (lit "exp"))
  pub iat_is_date : IfPresent (IsDate fl now) (get claims (lit "iat"))
  pub nbf_is_date : IfPresent (IsDate fl now) (get claims (lit "nbf"))
  pub not_expired :
      Under flags.check_exp (NotExpired fl now val (date_of fl (get claims (lit "exp"))))
  pub begun : Under flags.check_nbf (NotFuture fl now val (date_of fl (get claims (lit "nbf"))))
  pub issuer : Under flags.check_iss (IssuerFits val expected.iss (get claims (lit "iss")))
  pub audience :
      Under flags.check_aud
        (AudienceFits val expected.aud flags.strict_aud (get claims (lit "aud")))
  pub subject : Under flags.check_sub (SubjectFits expected.sub (get claims (lit "sub")))
  pub jti : IfPresent IsText (get claims (lit "jti"))
  pub issued : Under flags.check_iat (NotFuture fl now val (date_of fl (get claims (lit "iat"))))
  pub required : AllPresent claims val.required_spec_claims

-- A check accepts exactly what the predicate says.
abbrev Decides : Result WebtokenError (Unit {0}) → Type 0 → Type 0
Decides check P = (check ≡ ok tt) ↔ P

module _ {F : Type 0} (fl : Floats F) (now : F) where
  check_numeric_iff :
      (v : Option Value) (e : WebtokenError)
      → Decides (check_numeric fl v e) (IfPresent (IsDate fl now) v)
  unfolding check_numeric
  check_numeric_iff none e = (λ _. tt, λ _. refl)
  check_numeric_iff (some v) e = number_iff (get_numeric_date fl v)
    where
      number_iff : (d : Option F) → Decides (is_number fl e d) ((t : F) × (d ≡ some t))
      number_iff none = (λ h. cc, λ h. cc (h.1))
      number_iff (some t) = (λ h. (t, refl), λ h. refl)

  check_expiration_iff :
      (val : Validation) (exp : Option F)
      → Decides (check_expiration fl now val exp) (NotExpired fl now val exp)
  unfolding check_expiration
  check_expiration_iff val none = ground arith
  check_expiration_iff val (some t) = ground arith

  check_not_future_iff :
      (val : Validation) (d : Option F)
      → Decides (check_not_future fl now val d) (NotFuture fl now val d)
  unfolding check_not_future
  check_not_future_iff val none = (λ h. tt, λ h. refl)
  check_not_future_iff val (some t) = ground arith

check_issuer_iff :
    (val : Validation) (issuers : Option (List Text)) (iss : Option Value)
    → Decides (check_issuer val issuers iss) (IssuerFits val issuers iss)
unfolding check_issuer
check_issuer_iff val none none = ground arith
check_issuer_iff val none (some v) = ground arith
check_issuer_iff val (some issuers) none = (λ h. cc, λ h. absurd h)
check_issuer_iff val (some issuers) (some (string s)) = ground arith
check_issuer_iff val (some issuers) (some _) = (λ h. cc, λ h. absurd h)

matching_iff :
    (expected ts : List Text) → Decides (matching expected ts) (any_expected expected ts ≡ true)
matching_iff expected ts = ground arith

matching_array_iff :
    (expected : List Text) (vs : Values)
    → Decides (audience_texts vs >>= matching expected) (MeetsIn expected vs)
matching_array_iff expected vs = texts_iff (audience_texts vs)
  where
    texts_iff :
        (r : Result WebtokenError (List Text))
        → Decides
            (r >>= matching expected)
            ((ts : List Text) × (r ≡ ok ts) × (any_expected expected ts ≡ true))
    texts_iff (ok ts) = (λ h. (ts, refl, (matching_iff expected ts).0 h), λ h. ground (arith))
    texts_iff (err e) = (λ h. cc, λ h. cc (h.1))
    texts_iff panic = (λ h. cc, λ h. cc (h.1))

validate_audience_iff :
    (aud : Option Value) (expected : List Text) (strict : Bool)
    → Decides (validate_audience aud expected strict) (MeetsAudience strict expected aud)
unfolding validate_audience any_expected
validate_audience_iff none expected true = ground arith
validate_audience_iff (some v) expected true = ground arith
validate_audience_iff none expected false = (λ h. cc, λ h. absurd h)
validate_audience_iff (some (array vs)) expected false = matching_array_iff expected vs
validate_audience_iff (some (string s)) expected false = ground arith
validate_audience_iff (some _) expected false = (λ h. cc, λ h. absurd h)

check_audience_iff :
    (val : Validation) (auds : Option (List Text)) (strict : Bool) (aud : Option Value)
    → Decides (check_audience val auds strict aud) (AudienceFits val auds strict aud)
unfolding check_audience
check_audience_iff val none strict none = ground arith
check_audience_iff val none strict (some v) = ground arith
check_audience_iff val (some auds) strict aud = validate_audience_iff aud auds strict

check_subject_iff :
    (sub : Option Text) (found : Option Value)
    → Decides (check_subject sub found) (SubjectFits sub found)
unfolding check_subject
check_subject_iff none none = (λ h. tt, λ h. refl)
check_subject_iff none (some v) = ground arith
check_subject_iff (some sub) none = ground arith
check_subject_iff (some sub) (some (string s)) = ground (arith, eqb_iff s sub)
check_subject_iff (some sub) (some _) = ground arith

check_jti_iff : (found : Option Value) → Decides (check_jti found) (IfPresent IsText found)
unfolding check_jti
check_jti_iff none = (λ h. tt, λ h. refl)
check_jti_iff (some v) = ground arith

>>-iff :
    (m k : Result WebtokenError (Unit {0})) {P Q : Type 0}
    → Decides m P
    → Decides k Q
    → Decides (m >> k) (P × Q)
>>-iff (ok tt) k d e = (λ h. (d.0 refl, e.0 h), λ h. e.1 h.1)
>>-iff (err x) k d e = (λ h. cc, λ h. cc (d.1 h.0))
>>-iff panic k d e = (λ h. cc, λ h. cc (d.1 h.0))

check_present_iff :
    (req : Text) (found : Option Value)
    → Decides (check_present req found) ((v : Value) × (found ≡ some v))
unfolding check_present
check_present_iff req none = (λ h. cc, λ h. cc (h.1))
check_present_iff req (some v) = (λ h. (v, refl), λ h. refl)

check_required_iff :
    (claims : Value) (reqs : List Text)
    → Decides (check_required claims reqs) (AllPresent claims reqs)
unfolding check_required
check_required_iff claims [] = (λ h. tt, λ h. refl)
check_required_iff claims (req ∷ reqs) =
    >>-iff (check_present req (get claims req)) (check_required claims reqs)
      (check_present_iff req (get claims req)) (check_required_iff claims reqs)

when-iff :
    (flag : Bool) {check : Result WebtokenError (Unit {0})} {P : Type 0}
    → Decides check P
    → Decides (when flag check) (Under flag P)
when-iff true d = d
when-iff false d = (λ h. tt, λ h. refl)

-- `validate_claims` accepts a claim set exactly if it is acceptable.
pub validate_claims-iff-IsAcceptable :
    {F : Type 0} (fl : Floats F) (now : F) (claims : Value) (val : Validation) (flags : Flags)
    (expected : Expected)
    → (validate_claims fl now claims val flags expected ≡ ok tt)
      ↔ IsAcceptable fl now claims val flags expected
unfolding validate_claims check_numeric_claims
validate_claims-iff-IsAcceptable fl now claims val flags expected =
    let date = λ (k : Text). date_of fl (get claims k) in
    let numeric =
      >>-iff _ _
        (check_numeric_iff fl now (get claims (lit "exp"))
          (decode_error (lit "exp must be a number")))
        (>>-iff _ _
          (check_numeric_iff fl now (get claims (lit "iat"))
            (invalid_issued_at (lit "iat must be a number")))
          (check_numeric_iff fl now (get claims (lit "nbf"))
            (decode_error (lit "nbf must be a number")))) in
    let both = >>-iff _ _ numeric (
      >>-iff _ _ (when-iff flags.check_exp (check_expiration_iff fl now val (date (lit "exp")))) (
        >>-iff _ _ (when-iff flags.check_nbf (check_not_future_iff fl now val (date (lit "nbf")))) (
          >>-iff _ _
            (when-iff flags.check_iss (check_issuer_iff val expected.iss (get claims (lit "iss"))))
            (>>-iff _ _
              (when-iff flags.check_aud
                (check_audience_iff val expected.aud flags.strict_aud (get claims (lit "aud"))))
              (>>-iff _ _
                (when-iff flags.check_sub (check_subject_iff expected.sub (get claims (lit "sub"))))
                (>>-iff _ _ (check_jti_iff (get claims (lit "jti"))) (
                  >>-iff _ _
                    (when-iff flags.check_iat (check_not_future_iff fl now val (date (lit "iat"))))
                    (check_required_iff claims val.required_spec_claims)))))))) in
    (
      λ h.
          let ((e, (i, n)), (x, (b, (iss, (aud, (sub, (jti, (iat, req)))))))) = both.0 h in
          record {
            exp_is_date = e;
            iat_is_date = i;
            nbf_is_date = n;
            not_expired = x;
            begun = b;
            issuer = iss;
            audience = aud;
            subject = sub;
            jti = jti;
            issued = iat;
            required = req;
          },
      λ a. both.1 (
        (a.exp_is_date, (a.iat_is_date, a.nbf_is_date)),
        (
          a.not_expired,
          (a.begun, (a.issuer, (a.audience, (a.subject, (a.jti, (a.issued, a.required)))))),
        ),
      ),
    )
