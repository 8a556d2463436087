-- ===== src/Paseto/Paserk.antt =====
-- src/paseto.rs: `encode_paserk`. The bytes that the random number generator fills in are the fields
-- of `Draws`, none where it fails.
pub mod Passwords
pub mod Reading
pub mod RoundTrip
use webtoken.Common.{
  ℕ, zero, suc, ◌+◌, ◌-◌, ◌*◌, ◌/◌, ◌%◌, ◌^◌, ◌≤◌, ◌<◌, bit_and, ◌≡◌, refl, sym, ap, ◌∙◌, ◌≢◌, ◌↔◌,
  ◌⊎◌, inl, inr, Bool, true, false, not, ◌&&◌, ◌||◌, List, [], ◌∷◌, ◌++◌, append-nil, append_assoc,
  Option, none, some, Bytes, Text, bit_and_low, IsByte, AreBytes, Result, ok, err, panic, ◌>>=◌,
  ◌>>◌, guard, ok_or, map_err, >>=-eq-ok, guard-eq-ok, ltb, leb, ◌==◌, if◌then◌else◌, ==_iff,
  ltb-false, ltb-true, Bool-cases, Option-cases, and_true, length, take, drop, All, length-append,
  take-append-drop, length-take, length-drop, take-length_append, drop-length_append, drop-drop,
  All-append, append_inj, lit, eqb, is, starts_with, eqb_refl, eqb→eq, eqb_iff, is→eq, is_lit,
  starts_with-append, to_be_bytes, to_le_bytes, from_be_bytes, length-to_le_bytes,
  length-to_be_bytes, to_le_bytes_inj, NoDot, ◌⊙◌, split_dots, split_dots-join, split_dots-NoDot,
  arith,
}
use webtoken.Errors.{WebtokenError, generic, invalid_key}
use webtoken.External.{Base64}
use webtoken.Primitives.{Primitives}
use webtoken.KeyBytes.{
  extract_x25519_bytes, x25519_public_from_private, x25519_derive, ed25519_public_from_seed,
}
use webtoken.Paseto.{slice}

pub record Draws : Type 0 where
  pub salt : Option Bytes
  pub password_nonce : Option Bytes
  pub ephemeral_key : Option Bytes
  pub wrap_nonce : Option Bytes

abbrev pub is_some {ℓ} : {A : Type ℓ} → Option A → Bool
is_some none = false
is_some (some a) = true

-- The key by its purpose; a seed for "secret" is followed by its public key.
unfoldable pub key_for_purpose : Primitives → Text → Bytes → Result WebtokenError Bytes
key_for_purpose p purpose key =
    if is purpose "local"
    then guard (length key == 32) (invalid_key (lit "Invalid key length for local")) >> ok key
    else if is purpose "public"
    then guard (length key == 32) (invalid_key (lit "Invalid key length for public")) >> ok key
    else if is purpose "secret"
    then (if length key == 32
        then (ed25519_public_from_seed p key >>= λ public. ok (key ++ public))
        else guard (length key == 64) (invalid_key (lit "Invalid key length for secret")) >> ok key)
    else err (invalid_key (lit "Invalid purpose: " ++ purpose ++ lit "."))

-- What is authenticated of a key under a password, header first; memory, passes and lanes in their
-- big-endian fields.
unfoldable pub password_fields : Bytes → Bytes → Bytes → Bytes → Bytes → Bytes → Bytes
password_fields salt mem time para nonce edk = salt ++ (mem ++ (time ++ (para ++ (nonce ++ edk))))

module _ (p : Primitives) where
  -- The keys behind a password key: `ek` under 0xFF, `ak` under 0xFE.
  unfoldable pub password_ek : Bytes → Bytes
  password_ek k = p.blake2b_hash 32 (0xFF ∷ k)

  unfoldable pub password_ak : Bytes → Bytes
  password_ak k = p.blake2b_hash 32 (0xFE ∷ k)

  -- The keys, nonce of a sealed key: `ek` under 0x01, `ak` under 0x02.
  unfoldable pub seal_ek : Bytes → Bytes → Bytes → Bytes
  seal_ek xk epk xpk = p.blake2b_hash 32 (0x01 ∷ (lit "k4.seal." ++ (xk ++ (epk ++ xpk))))

  unfoldable pub seal_ak : Bytes → Bytes → Bytes → Bytes
  seal_ak xk epk xpk = p.blake2b_hash 32 (0x02 ∷ (lit "k4.seal." ++ (xk ++ (epk ++ xpk))))

  unfoldable pub seal_nonce : Bytes → Bytes → Bytes
  seal_nonce epk xpk = p.blake2b_hash 24 (epk ++ xpk)

  -- The keys of a wrapped key: 56 bytes for cipher key and nonce under 0x80, `ak` under 0x81.
  unfoldable pub pie_stream : Bytes → Bytes → Bytes → Bytes
  pie_stream wk n c =
      let x = p.blake2b_keyed_hash 56 wk (0x80 ∷ n) in p.xchacha20 (take 32 x) (slice 32 56 x) c

  unfoldable pub pie_ak : Bytes → Bytes → Bytes
  pie_ak wk n = p.blake2b_keyed_hash 32 wk (0x81 ∷ n)

module _ (b64 : Base64) (p : Primitives) (to_text : ℕ → Text) where
  -- The branch of encode_paserk for a password.
  unfoldable pub encode_password : Draws → Text → Bytes → Bytes → Result WebtokenError Text
  encode_password draws purpose key pwd = do
    let header = lit "k4." ++ purpose ++ lit "-pw."
    s ← ok_or draws.salt (invalid_key (lit "RNG failed"))
    k ← map_err (λ _. invalid_key (lit "Argon2 hash failed")) (p.argon2id 65536 2 1 pwd s)
    n ← ok_or draws.password_nonce (invalid_key (lit "RNG failed"))
    let edk = p.xchacha20 (password_ek p k) n key
    let fields =
        password_fields s (to_be_bytes 8 (65536 * 1024)) (to_be_bytes 4 2) (to_be_bytes 4 1) n edk
    let t = p.blake2b_keyed_hash 32 (password_ak p k) (header ++ fields)
    ok (header ++ b64.url_encode (fields ++ t))

  -- The branch for a sealing key.
  unfoldable pub encode_sealed : Draws → Text → Bytes → Bytes → Result WebtokenError Text
  encode_sealed draws purpose key xpk_input = do
    guard (is purpose "local") (invalid_key (lit "Key sealing can only be used for local key."))
    xpk ← extract_x25519_bytes b64 to_text xpk_input
    esk ← ok_or draws.ephemeral_key (generic (lit "RNG failed"))
    epk ← x25519_public_from_private b64 p to_text esk
    xk ← x25519_derive b64 p to_text esk xpk
    let edk = p.xchacha20 (seal_ek p xk epk xpk) (seal_nonce p epk xpk) key
    let t = p.blake2b_keyed_hash 32 (seal_ak p xk epk xpk) (lit "k4.seal." ++ (epk ++ edk))
    ok (lit "k4.seal." ++ b64.url_encode (t ++ (epk ++ edk)))

  -- The branch for a wrapping key.
  unfoldable pub encode_wrapped : Draws → Text → Bytes → Bytes → Result WebtokenError Text
  encode_wrapped draws purpose key wk = do
    guard (length wk == 32) (invalid_key (lit "Wrapping key must be 32 bytes."))
    let header = lit "k4." ++ purpose ++ lit "-wrap.pie."
    n ← ok_or draws.wrap_nonce (generic (lit "RNG failed"))
    let c = pie_stream p wk n key
    let t = p.blake2b_keyed_hash 32 (pie_ak p wk n) (header ++ (n ++ c))
    ok (header ++ b64.url_encode (t ++ (n ++ c)))

  -- The branches behind the checks, in the code's order; the last test for a password never holds.
  unfoldable pub encode_checked :
      Draws → Text → Bytes → Option Bytes → Option Bytes → Option Bytes → Result WebtokenError Text
  encode_checked draws purpose key wrapping (some pwd) sealing =
      encode_password draws purpose key pwd
  encode_checked draws purpose key wrapping none (some xpk) = encode_sealed draws purpose key xpk
  encode_checked draws purpose key (some wk) none none = encode_wrapped draws purpose key wk
  encode_checked draws purpose key none none none =
      ok (lit "k4." ++ purpose ++ lit "." ++ b64.url_encode key)

  -- encode_paserk: purpose, key, wrapping key, password, sealing key.
  unfoldable pub encode_paserk :
      Draws → Text → Bytes → Option Bytes → Option Bytes → Option Bytes → Result WebtokenError Text
  encode_paserk draws purpose key wrapping password sealing = do
    guard (not (is_some wrapping && is_some password))
        (invalid_key (lit "Only one of wrapping_key or password should be specified."))
    guard (not (is purpose "public" && (is_some wrapping || is_some password)))
        (invalid_key (lit "Public key cannot be wrapped."))
    full_key ← key_for_purpose p purpose key
    encode_checked draws purpose full_key wrapping password sealing

  -- calculate_paserk_id
  unfoldable pub calculate_paserk_id : Draws → Bytes → Text → Result WebtokenError Text
  calculate_paserk_id draws key purpose = do
    paserk ← encode_paserk draws purpose key none none none
    header ←
        (if is purpose "local"
          then ok (lit "k4.lid.")
          else if is purpose "public"
          then ok (lit "k4.pid.")
          else if is purpose "secret"
          then ok (lit "k4.sid.")
          else err (generic (lit "Invalid PASERK purpose")))
    ok (header ++ b64.url_encode (p.blake2b_hash 33 (header ++ paserk)))
