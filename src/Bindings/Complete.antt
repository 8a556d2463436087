-- ===== src/Bindings/Complete.antt =====
-- decode_complete of src/lib.rs with its signature verified.
use webtoken.Common.{
  ◌≡◌, refl, sym, ap, ◌∙◌, Bool, true, false, not, ◌&&◌, ◌||◌, List, Option, none, some, Bytes,
  Text, Result, ok, err, panic, ◌>>=◌, ◌>>◌, guard, map_err, >>=-eq-ok, guard-eq-ok, if◌then◌else◌,
  lit, starts_with, arith,
}
use webtoken.Errors.{WebtokenError}
use webtoken.External.{Base64, JsonCodec, Signer}
use webtoken.Jws.{eq_ignore_ascii_case}
use webtoken.Jwt.Claims.{Floats, Validation, Flags, Expected}
use webtoken.Jwt
use webtoken.Jwt.{CompleteToken, handle_detached_content}
use webtoken.PyJwk.{PyError}
use webtoken.PyJwk.KeyChoice.{Key, exception_of}
use webtoken.Bindings.{
  Conversions, Options, is_jwk, is_given, looks_public, or_hs256, peek_algorithm,
  prepare_validation, soft_flag, check_call, decoding_key, effective, decode_peeked,
  decode_complete,
}

behind_guard :
    {A : Type 0} (b : Bool) (e : PyError) (next : Result PyError A) {a : A}
    → (guard b e >> next) ≡ ok a
    → (b ≡ true) × (next ≡ ok a)
behind_guard true e next h = (refl, h)
behind_guard false e next h = cc

read_back :
    {A : Type 0} (r : Result WebtokenError A) {a : A} → map_err exception_of r ≡ ok a → r ≡ ok a
read_back (ok a) h = cc
read_back (err e) h = cc
read_back panic h = cc

-- A call of decode that verifies: its algorithms are given or its key is a JWK, the token's algorithm
-- is not "none", and a key for a name with HS does not look public.
abbrev pub IsChecked : Option (List Text) → Option Key → Text → Type 0
IsChecked algorithms key alg_str =
    ((is_given algorithms || is_jwk key) ≡ true)
    × (eq_ignore_ascii_case alg_str (lit "none") ≡ false)
    × ((starts_with (lit "HS") alg_str && looks_public key) ≡ false)

check_call-IsChecked :
    (algorithms : Option (List Text)) (key : Option Key) (alg_str : Text)
    → check_call true algorithms key alg_str ≡ ok tt
    → IsChecked algorithms key alg_str
unfolding check_call
check_call-IsChecked algorithms key alg_str h =
    let (given, h1) = behind_guard (not true || (is_given algorithms || is_jwk key)) _ _ h in
    let (named, h2) =
      behind_guard (not (eq_ignore_ascii_case alg_str (lit "none") && true)) _ _ h1 in
    let private = guard-eq-ok (not (starts_with (lit "HS") alg_str && looks_public key)) _ h2 in
    (given, ground arith, ground arith)

chosen :
    {A : Type 0} (spelled : Bool) (chain other : Result PyError A) {a : A}
    → spelled ≡ false
    → (if true && not spelled then chain else other) ≡ ok a
    → chain ≡ ok a
chosen false chain other e h = h
chosen true chain other e h = cc

key_found :
    (key_bytes_of : Key → Text → Bool → Bool → Result PyError Bytes) (key : Option Key)
    (alg_str : Text) (check_length : Bool) (found : Option Bytes)
    → eq_ignore_ascii_case alg_str (lit "none") ≡ false
    → decoding_key key_bytes_of true key alg_str check_length ≡ ok found
    → (k : Key) × (bytes : Bytes) × (key ≡ some k)
      × (found ≡ some bytes)
      × (key_bytes_of k alg_str false check_length ≡ ok bytes)
unfolding decoding_key
key_found key_bytes_of none alg_str check_length found named h =
    let h1 = chosen (eq_ignore_ascii_case alg_str (lit "none")) _ _ named h in cc
key_found key_bytes_of (some k) alg_str check_length found named h =
    let h1 = chosen (eq_ignore_ascii_case alg_str (lit "none")) _ _ named h in
    let (bytes, read, e) = >>=-eq-ok (key_bytes_of k alg_str false check_length) _ h1 in
    (k, bytes, refl, cc, read)

four_steps :
    (check : Result PyError (Unit {0})) (prepared : Result PyError (Validation × Flags))
    (expected_of : Result PyError Expected) (keys : Result PyError (Option Bytes))
    (run : Option Bytes → Validation → Flags → Expected → Result WebtokenError CompleteToken)
    {t : CompleteToken}
    → (check
        >> (prepared >>= (λ p.
            expected_of >>= (λ e. keys >>= (λ k. map_err exception_of (run k p.0 p.1 e))))))
      ≡ ok t
    → (v : Validation) × (f : Flags) × (e : Expected) × (k : Option Bytes) × (check ≡ ok tt)
      × (keys ≡ ok k)
      × (run k v f e ≡ ok t)
four_steps (ok u) (ok (v, f)) (ok e) (ok k) run h =
    (v, f, e, k, refl, refl, read_back (run k v f e) h)
four_steps (ok u) (ok (v, f)) (ok e) (err m) run h = cc
four_steps (ok u) (ok (v, f)) (ok e) panic run h = cc
four_steps (ok u) (ok (v, f)) (err m) keys run h = cc
four_steps (ok u) (ok (v, f)) panic keys run h = cc
four_steps (ok u) (err m) expected_of keys run h = cc
four_steps (ok u) panic expected_of keys run h = cc
four_steps (err m) prepared expected_of keys run h = cc
four_steps panic prepared expected_of keys run h = cc

two_steps :
    (first : Result PyError Text) (second : Text → Result PyError Text)
    (run : Text → Text → Result PyError CompleteToken) {t : CompleteToken}
    → (first >>= (λ a. second a >>= run a)) ≡ ok t
    → (a : Text) × (b : Text) × (first ≡ ok a) × (second a ≡ ok b) × (run a b ≡ ok t)
two_steps (ok a) second run h = let (b, e, r) = >>=-eq-ok (second a) (run a) h in (a, b, refl, e, r)
two_steps (err m) second run h = cc
two_steps panic second run h = cc

module _ {O F : Type 0} (py : Conversions O F) (fl : Floats F) (now : F) (b64 : Base64)
    (json : JsonCodec) (signer : Signer) (partial_header : Bytes → Option Text)
    (key_bytes_of : Key → Text → Bool → Bool → Result PyError Bytes) where
  -- What a decoded token has come from: the algorithm that is peeked from the token, the key bytes for it,
  -- and a run of the decoder that verifies with them.
  abbrev pub IsDecoded :
      Text
      → Option Key
      → Option (List Text)
      → Options O
      → Option Bytes
      → Bool
      → CompleteToken
      → Type 0
  IsDecoded token_str key algorithms options content return_dict t =
      (token : Text) × (alg_str : Text) × (k : Key) × (bytes : Bytes) × (validation : Validation)
      × (flags : Flags) × (expected : Expected) × (handle_detached_content b64 token_str content
          ≡ ok token)
      × (or_hs256 (peek_algorithm b64 partial_header token) ≡ ok alg_str)
      × IsChecked algorithms key alg_str
      × (key ≡ some k)
      × (key_bytes_of k alg_str false
            (soft_flag py options (lit "enforce_minimum_key_length") false)
          ≡ ok bytes)
      × (Jwt.decode fl now b64 json signer token (some bytes) validation true flags expected content
            return_dict
          ≡ ok t)

  decode_peeked-parts :
      (token alg_str : Text) (key : Option Key) (algorithms : Option (List Text))
      (options : Options O) (expected_of : Result PyError Expected) (verify : Option Bool)
      (content : Option Bytes) (return_dict : Bool) (leeway : F) (t : CompleteToken)
      → decode_peeked py fl now b64 json signer partial_header key_bytes_of token alg_str true key
          algorithms options expected_of verify content return_dict leeway
        ≡ ok t
      → (k : Key) × (bytes : Bytes) × (validation : Validation) × (flags : Flags)
        × (expected : Expected) × IsChecked algorithms key alg_str
        × (key ≡ some k)
        × (key_bytes_of k alg_str false
              (soft_flag py options (lit "enforce_minimum_key_length") false)
            ≡ ok bytes)
        × (Jwt.decode fl now b64 json signer token
              (some bytes)
              validation
              true
              flags
              expected
              content
              return_dict
            ≡ ok t)
  unfolding decode_peeked
  decode_peeked-parts token alg_str key algorithms options expected_of verify content return_dict
        leeway t h =
      let (v, f, e, found, checked, keys, run) =
        four_steps (check_call true algorithms key alg_str)
          (prepare_validation py algorithms options verify leeway) expected_of
          (decoding_key key_bytes_of true key alg_str
            (soft_flag py options (lit "enforce_minimum_key_length") false))
          (λ found v f e.
            Jwt.decode fl now b64 json signer token found v true f e content return_dict)
          h in
      let guarded = check_call-IsChecked algorithms key alg_str checked in
      let (k, bytes, is_key, is_found, read) =
        key_found key_bytes_of key alg_str _ found guarded.1 keys in
      (k, bytes, v, f, e, guarded, is_key, read, rw is_found at run)

  -- Where decode_complete verifies and returns a token, the algorithms are given or the key is a JWK, the
  -- name of the token's algorithm is not "none", no public key stands for a name with HS, and `decode`
  -- has accepted the token with the key bytes that get_key_bytes gives for that name.
  pub decode_complete-IsDecoded :
      (token_str : Text) (key : Option Key) (algorithms : Option (List Text)) (options : Options O)
      (expected_of : Result PyError Expected) (verify : Option Bool) (content : Option Bytes)
      (return_dict : Bool) (leeway : F) (t : CompleteToken)
      → effective py fl now b64 json signer partial_header key_bytes_of options verify ≡ true
      → decode_complete py fl now b64 json signer partial_header key_bytes_of token_str key
          algorithms options expected_of verify content return_dict leeway
        ≡ ok t
      → IsDecoded token_str key algorithms options content return_dict t
  unfolding decode_complete
  decode_complete-IsDecoded token_str key algorithms options expected_of verify content return_dict
        leeway t verifies h =
      let (token, alg_str, h_token, h_alg, h1) =
        two_steps (map_err exception_of (handle_detached_content b64 token_str content))
          (λ token. or_hs256 (peek_algorithm b64 partial_header token)) _ h in
      let (k, bytes, v, f, e, guarded, is_key, read, run) =
        decode_peeked-parts token alg_str key algorithms options expected_of verify content
          return_dict leeway t
          (sym (
              ap
                (λ b.
                  decode_peeked py fl now b64 json signer partial_header key_bytes_of token alg_str
                    b key algorithms options expected_of verify content return_dict leeway)
                verifies)
            ∙ h1) in
      (
        token,
        alg_str,
        k,
        bytes,
        v,
        f,
        e,
        read_back (handle_detached_content b64 token_str content) h_token,
        h_alg,
        guarded,
        is_key,
        read,
        run,
      )
