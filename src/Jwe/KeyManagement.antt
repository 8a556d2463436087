-- ===== src/Jwe/KeyManagement.antt =====
-- src/jwe.rs: the management of the content encryption key.
use webtoken.Common.{
  ℕ, ◌*◌, ◌%◌, ◌^◌, Bool, ◌||◌, [], ◌∷◌, ◌++◌, Option, none, some, Bytes, Text, Result, ok, err,
  panic, ◌>>=◌, ◌>>◌, guard, ok_or, ◌==◌, if◌then◌else◌, length, lit, is, starts_with,
}
use webtoken.Errors.{WebtokenError, invalid_token, unsupported_algorithm}
use webtoken.External.{Base64}
use webtoken.Json.{Value, string, number, object, end, field, insert, get, and_then_str}
use webtoken.Jws.{permissive_or}
use webtoken.KeyBytes.{x25519_public_from_private, x25519_derive}
use webtoken.Primitives.{Primitives}
use webtoken.Jwe.Ciphers.{
  CipherSuite, aes_key_wrap, aes_key_unwrap, rsa_encrypt_oaep, rsa_decrypt_oaep, rsa_encrypt_pkcs1,
  rsa_decrypt_pkcs1,
}
use webtoken.Jwe.Content.{get_cek_length}
use webtoken.Jwe.Derivation.{
  concat_kdf_sha256, pbkdf2_manual_sha256, pbkdf2_manual_sha384, pbkdf2_manual_sha512,
}

-- What `get_random_bytes` returns at each place that calls it, for the length it is given.
pub record JweDraws : Type 0 where
  pub cek : ℕ → Result WebtokenError Bytes
  pub ephemeral : ℕ → Result WebtokenError Bytes
  pub salt : ℕ → Result WebtokenError Bytes
  pub nonce : ℕ → Result WebtokenError Bytes

-- A number as its decimal text, and `Value::as_u64` on the text of a number.
pub record JsonNumbers : Type 0 where
  pub to_text : ℕ → Text
  pub as_u64 : Text → Option ℕ

abbrev as_u64 : JsonNumbers → Option Value → Option ℕ
as_u64 n (some (number t)) = n.as_u64 t
as_u64 n _ = none

-- `if let Some(obj) = headers.as_object_mut() { obj.insert(…) }`
abbrev pub insert_into : Text → Value → Value → Value
insert_into name v (object fields) = object (insert name v fields)
insert_into name v other = other

unfoldable pub is_oaep : Text → Bool
is_oaep alg =
    is alg "RSA-OAEP" || (is alg "RSA-OAEP-256" || (is alg "RSA-OAEP-384" || is alg "RSA-OAEP-512"))

unfoldable pub is_key_wrap : Text → Bool
is_key_wrap alg = is alg "A128KW" || (is alg "A192KW" || is alg "A256KW")

unfoldable pub is_ecdh : Text → Bool
is_ecdh alg =
    is alg "ECDH-ES"
    || (is alg "ECDH-ES+A128KW" || (is alg "ECDH-ES+A192KW" || is alg "ECDH-ES+A256KW"))

-- get_key_wrap_length
unfoldable pub get_key_wrap_length : Text → Result WebtokenError ℕ
get_key_wrap_length alg =
    if is alg "A128KW"
    then ok 16
    else if is alg "A192KW"
    then ok 24
    else if is alg "A256KW"
    then ok 32
    else err (unsupported_algorithm (lit "Unknown wrap alg: " ++ alg))

until_plus : Text → Text
until_plus [] = []
until_plus (c ∷ cs) = let rest = until_plus cs in if c == b'+' then [] else c ∷ rest

-- `alg.split('+').nth(1).unwrap()`
unfoldable pub after_plus : Text → Result WebtokenError Text
unfolding until_plus
after_plus [] = panic
after_plus (c ∷ cs) = let rest = after_plus cs in if c == b'+' then ok (until_plus cs) else rest

-- The lengths of the key encryption keys of PBES2.
unfoldable pub pbes2_kek_length : Text → Result WebtokenError ℕ
pbes2_kek_length alg =
    if is alg "PBES2-HS256+A128KW"
    then ok 16
    else if is alg "PBES2-HS384+A192KW"
    then ok 24
    else if is alg "PBES2-HS512+A256KW"
    then ok 32
    else err (unsupported_algorithm (lit "Unsupported PBES2 alg: " ++ alg))

module _ (b64 : Base64) (n : JsonNumbers) where
  -- prepare_pbes2_params_encrypt: salt, iterations, length of the key, headers.
  unfoldable pub prepare_pbes2_params_encrypt :
      JweDraws → Text → Value → Result WebtokenError (Bytes × ℕ × ℕ × Value)
  prepare_pbes2_params_encrypt draws alg headers = do
    kek_len ← pbes2_kek_length alg
    p2s ← draws.salt 16
    ok (
      p2s,
      8192,
      kek_len,
      insert_into (lit "p2c") (number (n.to_text 8192))
          (insert_into (lit "p2s") (string (b64.url_encode p2s)) headers),
    )

  -- prepare_pbes2_params_decrypt; the iterations are cut to 32 bits.
  unfoldable pub prepare_pbes2_params_decrypt : Text → Value → Result WebtokenError (Bytes × ℕ × ℕ)
  prepare_pbes2_params_decrypt alg headers = do
    kek_len ← pbes2_kek_length alg
    p2s_b64 ←
        ok_or (and_then_str (get headers (lit "p2s"))) (invalid_token (lit "Missing p2s parameter"))
    p2s ← permissive_or b64 (invalid_token (lit "Invalid p2s encoding")) p2s_b64
    p2c ← ok_or (as_u64 n (get headers (lit "p2c"))) (invalid_token (lit "Missing p2c parameter"))
    ok (p2s, p2c % 2 ^ 32, kek_len)

-- derive_pbes2_kek
unfoldable pub derive_pbes2_kek :
    CipherSuite → Text → Bytes → Bytes → ℕ → ℕ → Result WebtokenError Bytes
derive_pbes2_kek c alg password p2s p2c kek_len =
    let salt = alg ++ 0 ∷ p2s in
    if is alg "PBES2-HS256+A128KW"
    then ok (pbkdf2_manual_sha256 c password salt p2c kek_len)
    else if is alg "PBES2-HS384+A192KW"
    then ok (pbkdf2_manual_sha384 c password salt p2c kek_len)
    else if is alg "PBES2-HS512+A256KW"
    then ok (pbkdf2_manual_sha512 c password salt p2c kek_len)
    else err (unsupported_algorithm (lit "Unsupported PBES2 alg: " ++ alg))

module _ (b64 : Base64) (c : CipherSuite) (p : Primitives) (n : JsonNumbers) where
  -- A drawn key, wrapped with AES: key, wrapped key, headers.
  unfoldable pub wrap_drawn :
      JweDraws → ℕ → Bytes → Value → Result WebtokenError (Bytes × Bytes × Value)
  wrap_drawn draws cek_len kek headers = do
    cek ← draws.cek cek_len
    encrypted_cek ← aes_key_wrap c kek cek
    ok (cek, encrypted_cek, headers)

  -- The arm for ECDH-ES.
  unfoldable pub encrypt_ecdh :
      JweDraws → ℕ → Text → Text → Bytes → Value → Result WebtokenError (Bytes × Bytes × Value)
  encrypt_ecdh draws cek_len alg enc key headers = do
    ephemeral_priv ← draws.ephemeral 32
    ephemeral_pub ← x25519_public_from_private b64 p n.to_text ephemeral_priv
    let epk = object (
        field (lit "kty") (string (lit "OKP")) (
          field (lit "crv") (string (lit "X25519"))
            (field (lit "x") (string (b64.url_encode ephemeral_pub)) end)))
    let with_epk = insert_into (lit "epk") epk headers
    z ← x25519_derive b64 p n.to_text ephemeral_priv key
    if is alg "ECDH-ES"
        then ok (concat_kdf_sha256 c z (cek_len * 8) enc [] [], [], with_epk)
        else do
          wrap_alg ← after_plus alg
          kek_len ← get_key_wrap_length wrap_alg
          wrap_drawn draws cek_len (concat_kdf_sha256 c z (kek_len * 8) wrap_alg [] []) with_epk

  unfoldable pub decrypt_ecdh : ℕ → Text → Text → Bytes → Bytes → Value → Result WebtokenError Bytes
  decrypt_ecdh cek_len alg enc key encrypted_key headers = do
    epk ← ok_or (get headers (lit "epk")) (invalid_token (lit "Missing epk"))
    x_b64 ← ok_or (and_then_str (get epk (lit "x"))) (invalid_token (lit "Invalid epk.x"))
    sender_pub ← permissive_or b64 (invalid_token (lit "Invalid epk")) x_b64
    z ← x25519_derive b64 p n.to_text key sender_pub
    if is alg "ECDH-ES" then ok (concat_kdf_sha256 c z (cek_len * 8) enc [] []) else do
      wrap_alg ← after_plus alg
      kek_len ← get_key_wrap_length wrap_alg
      aes_key_unwrap c (concat_kdf_sha256 c z (kek_len * 8) wrap_alg [] []) encrypted_key

  -- The arm for PBES2.
  unfoldable pub encrypt_pbes2 :
      JweDraws → ℕ → Text → Bytes → Value → Result WebtokenError (Bytes × Bytes × Value)
  encrypt_pbes2 draws cek_len alg key headers = do
    (p2s, p2c, kek_len, with_params) ← prepare_pbes2_params_encrypt b64 n draws alg headers
    kek ← derive_pbes2_kek c alg key p2s p2c kek_len
    wrap_drawn draws cek_len kek with_params

  unfoldable pub decrypt_pbes2 : Text → Bytes → Bytes → Value → Result WebtokenError Bytes
  decrypt_pbes2 alg key encrypted_key headers = do
    (p2s, p2c, kek_len) ← prepare_pbes2_params_decrypt b64 n alg headers
    kek ← derive_pbes2_kek c alg key p2s p2c kek_len
    aes_key_unwrap c kek encrypted_key

  -- The arms for RSA.
  unfoldable pub encrypt_rsa :
      JweDraws
      → ℕ
      → (Bytes → Result WebtokenError Bytes)
      → Value
      → Result WebtokenError (Bytes × Bytes × Value)
  encrypt_rsa draws cek_len encrypt headers = do
    cek ← draws.cek cek_len
    encrypted_cek ← encrypt cek
    ok (cek, encrypted_cek, headers)

  -- manage_cek_encrypt: the key, its encryption, and the headers with what the arm has added.
  unfoldable pub manage_cek_encrypt :
      JweDraws → Text → Text → Bytes → Value → Result WebtokenError (Bytes × Bytes × Value)
  manage_cek_encrypt draws alg enc key headers = get_cek_length enc >>= λ cek_len.
      if is alg "dir"
      then (guard (length key == cek_len) (
            invalid_token (
              lit "Direct encryption requires key length "
              ++ n.to_text cek_len
              ++ lit ", got "
              ++ n.to_text (length key)))
          >> ok (key, [], headers))
      else if is alg "RSA1_5"
      then encrypt_rsa draws cek_len (λ cek. rsa_encrypt_pkcs1 c b64 key cek) headers
      else if is_oaep alg
      then encrypt_rsa draws cek_len (λ cek. rsa_encrypt_oaep c b64 key cek alg) headers
      else if is_key_wrap alg
      then wrap_drawn draws cek_len key headers
      else if is_ecdh alg
      then encrypt_ecdh draws cek_len alg enc key headers
      else if starts_with (lit "PBES2-") alg
      then encrypt_pbes2 draws cek_len alg key headers
      else err (unsupported_algorithm (lit "Unknown alg: " ++ alg))

  -- manage_cek_decrypt
  unfoldable pub manage_cek_decrypt :
      Text → Text → Bytes → Bytes → Value → Result WebtokenError Bytes
  manage_cek_decrypt alg enc key encrypted_key headers = get_cek_length enc >>= λ cek_len.
      if is alg "dir"
      then (guard (length encrypted_key == 0) (invalid_token (lit "dir alg must have empty EK"))
          >> ok key)
      else if is alg "RSA1_5"
      then rsa_decrypt_pkcs1 c b64 key encrypted_key
      else if is_oaep alg
      then rsa_decrypt_oaep c b64 key encrypted_key alg
      else if is_key_wrap alg
      then aes_key_unwrap c key encrypted_key
      else if starts_with (lit "PBES2-") alg
      then decrypt_pbes2 alg key encrypted_key headers
      else if is_ecdh alg
      then decrypt_ecdh cek_len alg enc key encrypted_key headers
      else err (unsupported_algorithm (lit "Unknown alg: " ++ alg))
