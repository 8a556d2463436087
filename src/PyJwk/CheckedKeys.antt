-- ===== src/PyJwk/CheckedKeys.antt =====
-- What the checks of src/pyjwt_jwk_api.rs on a JWK accept.
use webtoken.Common.{
  ℕ, ◌≤◌, ◌≡◌, refl, sym, ap, ◌∙◌, ◌↔◌, ◌⊎◌, inl, inr, Bool, true, false, not, ◌&&◌, List, [], ◌∷◌,
  Option, none, some, Bytes, Text, Result, ok, err, panic, ◌>>=◌, ◌>>◌, guard, ok_or, map_err,
  guard-eq-ok, ltb, ◌==◌, if◌then◌else◌, length, lit, eqb, is, eqb→eq, is_lit, arith,
}
use webtoken.External.{Base64}
use webtoken.Json.{Value, get, as_str}
use webtoken.Jwk.{text_at, is_some}
use webtoken.PyJwk.{PyError, PyJwk, key_type, text_or_empty}
use webtoken.PyJwk.KeyChecks.{
  crt_members, members_in, rsa_checks, validate_rsa_consistency, check_curve, check_d,
  check_ed25519, is_curve, validate_key_properties,
}

abbrev pub AreThere : Bool → Value → List Text → Type 0
AreThere present v [] = Unit {0}
AreThere present v (k ∷ ks) = (is_some (get v k) ≡ present) × AreThere present v ks

members_le : (v : Value) (ks : List Text) → length (members_in true v ks) ≤ length ks
unfolding members_in
members_le v [] = ground arith
members_le v (k ∷ ks) = ground (arith, members_le v ks)

all→members :
    (v : Value) (ks : List Text) → AreThere true v ks → length (members_in true v ks) ≡ length ks
unfolding members_in
all→members v [] h = refl
all→members v (k ∷ ks) (e, h) = ground (arith, e, all→members v ks h)

members→all :
    (v : Value) (ks : List Text) → length (members_in true v ks) ≡ length ks → AreThere true v ks
unfolding members_in
members→all v [] h = tt
members→all v (k ∷ ks) h =
    (ground (arith, members_le v ks), members→all v ks (ground (arith, members_le v ks)))

none→members :
    (v : Value) (ks : List Text) → AreThere false v ks → length (members_in true v ks) ≡ 0
unfolding members_in
none→members v [] h = refl
none→members v (k ∷ ks) (e, h) = ground (arith, e, none→members v ks h)

members→none :
    (v : Value) (ks : List Text) → length (members_in true v ks) ≡ 0 → AreThere false v ks
unfolding members_in
members→none v [] h = tt
members→none v (k ∷ ks) h = (ground arith, members→none v ks (ground arith))

-- An RSA key with its public members and without further primes, and with all of the members for the
-- Chinese remainder theorem or none.
abbrev pub IsConsistent : Value → Type 0
IsConsistent v =
    AreThere true v (lit "n" ∷ lit "e" ∷ [])
    × AreThere false v (lit "oth" ∷ [])
    × (AreThere true v crt_members ⊎ AreThere false v crt_members)

guards→counts :
    (n e oth : Bool) (count : ℕ) (f g h : PyError)
    → count ≤ 5
    → (guard (n && e) f >> (guard (not oth) g >> guard (not (ltb 0 count && ltb count 5)) h))
      ≡ ok tt
    → (n ≡ true) × (e ≡ true) × (oth ≡ false) × ((count ≡ 5) ⊎ (count ≡ 0))
guards→counts true true false count f g h small r =
    (refl, refl, refl, ground (arith, guard-eq-ok (not (ltb 0 count && ltb count 5)) h r))
guards→counts true true true count f g h small r = cc
guards→counts true false oth count f g h small r = cc
guards→counts false e oth count f g h small r = cc

counts→guards :
    (n e oth : Bool) (count : ℕ) (f g h : PyError)
    → n ≡ true
    → e ≡ true
    → oth ≡ false
    → (count ≡ 5) ⊎ (count ≡ 0)
    → (guard (n && e) f >> (guard (not oth) g >> guard (not (ltb 0 count && ltb count 5)) h))
      ≡ ok tt
counts→guards n e oth count f g h en ee eo (inl c) = rw (en, ee, eo, c)
counts→guards n e oth count f g h en ee eo (inr c) = rw (en, ee, eo, c)

opened :
    (key : PyJwk)
    → key_type key ≡ ok (lit "RSA")
    → validate_rsa_consistency key ≡ rsa_checks key.inner
unfolding validate_rsa_consistency
opened key t = rw (t, is_lit "RSA")

rsa_checks→consistent : (v : Value) → rsa_checks v ≡ ok tt → IsConsistent v
unfolding rsa_checks
rsa_checks→consistent v h =
    let (en, ee, eo, counts) =
      guards→counts (is_some (get v (lit "n"))) (is_some (get v (lit "e")))
        (is_some (get v (lit "oth"))) (length (members_in true v crt_members)) _ _ _
        (members_le v crt_members) h in
    (
      (en, (ee, tt)),
      (eo, tt),
      (elim counts [
        | inl five ↦ inl (members→all v crt_members five)
        | inr absent ↦ inr (members→none v crt_members absent)
      ]),
    )

consistent→rsa_checks : (v : Value) → IsConsistent v → rsa_checks v ≡ ok tt
unfolding rsa_checks
consistent→rsa_checks v ((en, (ee, u)), (eo, w), crt) =
    counts→guards (is_some (get v (lit "n"))) (is_some (get v (lit "e")))
      (is_some (get v (lit "oth"))) (length (members_in true v crt_members)) _ _ _ en ee eo
      (elim crt [
        | inl all ↦ inl (all→members v crt_members all)
        | inr absent ↦ inr (none→members v crt_members absent)
      ])

-- For a JWK with the type "RSA", validate_rsa_consistency accepts the consistent keys and no other.
pub validate_rsa_consistency-iff-IsConsistent :
    (key : PyJwk)
    → key_type key ≡ ok (lit "RSA")
    → (validate_rsa_consistency key ≡ ok tt) ↔ IsConsistent key.inner
validate_rsa_consistency-iff-IsConsistent key t = (
  λ h. rsa_checks→consistent key.inner (sym (opened key t) ∙ h),
  λ c. opened key t ∙ consistent→rsa_checks key.inner c,
)

-- An Ed25519 component in base64.
abbrev pub Is32Bytes : Base64 → Text → Type 0
Is32Bytes b64 t = (bs : Bytes) × (b64.url_decode t ≡ ok bs) × (length bs ≡ 32)

-- The private component, where there is one.
abbrev pub IsSeed : Base64 → Option Value → Type 0
IsSeed b64 none = Unit {0}
IsSeed b64 (some d) = (t : Text) × (as_str d ≡ some t) × Is32Bytes b64 t

-- A JWK for Ed25519 with its public key and maybe its seed, each of 32 bytes.
abbrev pub IsEd25519 : Base64 → Value → Type 0
IsEd25519 b64 v =
    (text_at v "kty" ≡ some (lit "OKP"))
    × (text_at v "crv" ≡ some (lit "Ed25519"))
    × ((t : Text) × (text_at v "x" ≡ some t) × Is32Bytes b64 t)
    × IsSeed b64 (get v (lit "d"))

at_text :
    (found : Option Text) (e : PyError) (next : Text → Result PyError (Unit {0}))
    → (ok_or found e >>= next) ≡ ok tt
    → (t : Text) × (found ≡ some t) × (next t ≡ ok tt)
at_text none e next h = cc
at_text (some t) e next h = (t, refl, h)

at_bytes :
    (decoded : Result Text Bytes) (e : PyError) (next : Bytes → Result PyError (Unit {0}))
    → (map_err (λ _. e) decoded >>= next) ≡ ok tt
    → (bs : Bytes) × (decoded ≡ ok bs) × (next bs ≡ ok tt)
at_bytes (ok bs) e next h = (bs, refl, h)
at_bytes (err m) e next h = cc
at_bytes panic e next h = cc

behind_guard :
    (b : Bool) (e : PyError) (next : Result PyError (Unit {0}))
    → (guard b e >> next) ≡ ok tt
    → (b ≡ true) × (next ≡ ok tt)
behind_guard true e next h = (refl, h)
behind_guard false e next h = cc

check_d-IsSeed : (b64 : Base64) (d : Option Value) → check_d b64 d ≡ ok tt → IsSeed b64 d
unfolding check_d
check_d-IsSeed b64 none h = tt
check_d-IsSeed b64 (some d) h =
    let (t, is_text, h1) = at_text (as_str d) _ _ h in
    let (bs, read, h2) = at_bytes (b64.url_decode t) _ _ h1 in
    (t, is_text, (bs, read, ground (arith, guard-eq-ok (length bs == 32) _ h2)))

check_ed25519-components :
    (b64 : Base64) (v : Value)
    → check_ed25519 b64 v ≡ ok tt
    → ((t : Text) × (text_at v "x" ≡ some t) × Is32Bytes b64 t) × IsSeed b64 (get v (lit "d"))
unfolding check_ed25519
check_ed25519-components b64 v h =
    let (t, found, h1) = at_text (text_at v "x") _ _ h in
    let (bs, read, h2) = at_bytes (b64.url_decode t) _ _ h1 in
    let (long, h3) = behind_guard (length bs == 32) _ _ h2 in
    ((t, found, (bs, read, ground arith)), check_d-IsSeed b64 (get v (lit "d")) h3)

check_curve-same :
    (v : Value) (kty crv : Text) → check_curve v kty (some crv) ≡ ok tt → text_at v "crv" ≡ some crv
unfolding check_curve
check_curve-same v kty crv h =
    let (t, found, h1) = at_text (text_at v "crv") _ _ h in
    found ∙ ap some (eqb→eq t crv (guard-eq-ok (eqb t crv) _ h1))

or_empty-eq : (found : Option Text) → text_or_empty found ≡ lit "OKP" → found ≡ some (lit "OKP")
unfolding lit
or_empty-eq none h = cc
or_empty-eq (some t) h = ap some h

behind_check :
    (check next : Result PyError (Unit {0}))
    → (check >> next) ≡ ok tt
    → (check ≡ ok tt) × (next ≡ ok tt)
behind_check (ok u) next h = (refl, h)
behind_check (err e) next h = cc
behind_check panic next h = cc

okp_branches :
    (kty : Text) (ec ed : Result PyError (Unit {0}))
    → kty ≡ lit "OKP"
    → ((if is kty "EC" then ec else ok tt)
        >> (if is kty "OKP" && is_curve (some (lit "Ed25519")) "Ed25519" then ed else ok tt))
      ≡ ok tt
    → ed ≡ ok tt
unfolding is eqb lit
okp_branches kty ec ed e h = rw e at h

-- What validate_key_properties accepts for the type "OKP" and the curve "Ed25519" is a key of that type
-- and curve, with a public key of 32 bytes, and with a seed of 32 bytes where it has a private component.
pub validate_key_properties-IsEd25519 :
    (b64 : Base64) (key : PyJwk)
    → validate_key_properties b64 key (lit "OKP") (some (lit "Ed25519")) ≡ ok tt
    → IsEd25519 b64 key.inner
unfolding validate_key_properties
validate_key_properties-IsEd25519 b64 key h =
    let (same, h1) =
      behind_guard (eqb (text_or_empty (text_at key.inner "kty")) (lit "OKP")) _ _ h in
    let kty = eqb→eq (text_or_empty (text_at key.inner "kty")) (lit "OKP") same in
    let (curve, h2) =
      behind_check (check_curve key.inner (lit "OKP") (some (lit "Ed25519"))) _ h1 in
    let (public, seed) =
      check_ed25519-components b64 key.inner
        (okp_branches (text_or_empty (text_at key.inner "kty")) _ _ kty h2) in
    (
      or_empty-eq (text_at key.inner "kty") kty,
      check_curve-same key.inner (lit "OKP") (lit "Ed25519") curve,
      public,
      seed,
    )
