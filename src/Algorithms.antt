-- ===== src/Algorithms.antt =====
-- src/algorithms.rs: the algorithm names.
use webtoken.Common.{
  ◌≡◌, refl, ◌⊎◌, inl, inr, Bool, true, false, ◌||◌, Text, Result, ok, err, panic, if◌then◌else◌,
  Bool-cases, lit, is, is→eq, arith,
}
use mathlib.Core.Path.{subst}
use webtoken.Errors.{WebtokenError, invalid_algorithm}

pub data Algorithm : Type 0 where
  hs256 hs384 hs512 rs256 rs384 rs512 ps256 ps384 ps512 ed_dsa : Algorithm
  es256 es384 es512 es256k blake2b512 : Algorithm

-- `Display for Algorithm`
unfoldable pub to_string : Algorithm → Text
to_string hs256 = lit "HS256"
to_string hs384 = lit "HS384"
to_string hs512 = lit "HS512"
to_string rs256 = lit "RS256"
to_string rs384 = lit "RS384"
to_string rs512 = lit "RS512"
to_string ps256 = lit "PS256"
to_string ps384 = lit "PS384"
to_string ps512 = lit "PS512"
to_string es256 = lit "ES256"
to_string es384 = lit "ES384"
to_string es512 = lit "ES512"
to_string es256k = lit "ES256K"
to_string ed_dsa = lit "EdDSA"
to_string blake2b512 = lit "BLAKE2b512"

-- `FromStr for Algorithm`
unfoldable pub from_str : Text → Result WebtokenError Algorithm
from_str s =
    if is s "HS256"
    then ok hs256
    else if is s "HS384"
    then ok hs384
    else if is s "HS512"
    then ok hs512
    else if is s "RS256"
    then ok rs256
    else if is s "RS384"
    then ok rs384
    else if is s "RS512"
    then ok rs512
    else if is s "PS256"
    then ok ps256
    else if is s "PS384"
    then ok ps384
    else if is s "PS512"
    then ok ps512
    else if is s "ES256"
    then ok es256
    else if is s "ES384"
    then ok es384
    else if is s "ES512"
    then ok es512
    else if is s "ES256K"
    then ok es256k
    else if is s "EdDSA" || is s "Ed25519"
    then ok ed_dsa
    else if is s "BLAKE2b512"
    then ok blake2b512
    else err (invalid_algorithm (lit "Invalid algorithm"))

abbrev is_ok {ℓ} : {E : Type 0} {A : Type ℓ} → Result E A → Bool
is_ok (ok a) = true
is_ok (err e) = false
is_ok panic = false

-- is_supported_algorithm
unfoldable pub is_supported_algorithm : Text → Bool
is_supported_algorithm alg = is_ok (from_str alg)

-- Every algorithm is read back from its name.
pub from_str-to_string : (a : Algorithm) → from_str (to_string a) ≡ ok a
unfolding from_str to_string is
from_str-to_string hs256 = refl
from_str-to_string _ = refl

abbrev IsNameOf : Text → Algorithm → Type 0
IsNameOf s a = (s ≡ to_string a) ⊎ ((s ≡ lit "Ed25519") × (a ≡ ed_dsa))

-- One arm of the `match`: either it is taken, or the arms below it are.
arm :
    (s : Text) (hit : Bool) (x : Algorithm) (below : Result WebtokenError Algorithm) (a : Algorithm)
    → (hit ≡ true → IsNameOf s x)
    → (below ≡ ok a → IsNameOf s a)
    → (if hit then ok x else below) ≡ ok a
    → IsNameOf s a
arm s true x below a h k e = let same : x ≡ a = cc in subst (IsNameOf s) same (h refl)
arm s false x below a h k e = k e

ed_dsa_names : (s : Text) → (is s "EdDSA" || is s "Ed25519") ≡ true → IsNameOf s ed_dsa
unfolding to_string
ed_dsa_names s h = elim (Bool-cases (is s "EdDSA")) [
  | inl e ↦ inl (is→eq s "EdDSA" e)
  | inr n ↦ inr (is→eq s "Ed25519" (ground arith), refl)
]

-- A name that is read is the name of the algorithm, or "Ed25519" for EdDSA.
pub to_string-from_str :
    (s : Text) (a : Algorithm)
    → from_str s ≡ ok a
    → (s ≡ to_string a) ⊎ ((s ≡ lit "Ed25519") × (a ≡ ed_dsa))
unfolding from_str to_string
to_string-from_str s a =
    arm s (is s "HS256") _ _ a (λ e. inl (is→eq s "HS256" e))
      (arm s (is s "HS384") _ _ a (λ e. inl (is→eq s "HS384" e))
        (arm s (is s "HS512") _ _ a (λ e. inl (is→eq s "HS512" e))
          (arm s (is s "RS256") _ _ a (λ e. inl (is→eq s "RS256" e))
            (arm s (is s "RS384") _ _ a (λ e. inl (is→eq s "RS384" e))
              (arm s (is s "RS512") _ _ a (λ e. inl (is→eq s "RS512" e))
                (arm s (is s "PS256") _ _ a (λ e. inl (is→eq s "PS256" e))
                  (arm s (is s "PS384") _ _ a (λ e. inl (is→eq s "PS384" e))
                    (arm s (is s "PS512") _ _ a (λ e. inl (is→eq s "PS512" e))
                      (arm s (is s "ES256") _ _ a (λ e. inl (is→eq s "ES256" e))
                        (arm s (is s "ES384") _ _ a (λ e. inl (is→eq s "ES384" e))
                          (arm s (is s "ES512") _ _ a (λ e. inl (is→eq s "ES512" e))
                            (arm s (is s "ES256K") _ _ a (λ e. inl (is→eq s "ES256K" e))
                              (arm s (is s "EdDSA" || is s "Ed25519") _ _ a (ed_dsa_names s) (
                                arm s (is s "BLAKE2b512") _ _ a (λ e. inl (is→eq s "BLAKE2b512" e))
                                  (λ e. cc)))))))))))))))

-- A supported name is read as some algorithm.
pub supported-from_str :
    (s : Text) → is_supported_algorithm s ≡ true → (a : Algorithm) × (from_str s ≡ ok a)
unfolding is_supported_algorithm
supported-from_str s h = was_ok (from_str s) h
  where
    was_ok : (r : Result WebtokenError Algorithm) → is_ok r ≡ true → (a : Algorithm) × (r ≡ ok a)
    was_ok (ok a) e = (a, refl)
    was_ok (err x) e = cc
    was_ok panic e = cc
