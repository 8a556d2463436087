-- ===== src/Paseto/Paserk/Reading.antt =====
-- src/paseto.rs: `decode_paserk`.
use webtoken.Common.{
  ℕ, ◌-◌, ◌/◌, ◌%◌, ◌^◌, Bool, not, ◌&&◌, ◌||◌, List, [], ◌∷◌, ◌++◌, Option, none, some, Bytes,
  Text, Result, ok, err, panic, ◌>>=◌, ◌>>◌, guard, ok_or, map_err, leb, ◌==◌, if◌then◌else◌,
  length, take, drop, lit, eqb, is, from_be_bytes, split_dots,
}
use webtoken.Errors.{WebtokenError, invalid_key}
use webtoken.External.{Base64}
use webtoken.Primitives.{Primitives}
use webtoken.KeyBytes.{extract_x25519_bytes, x25519_public_from_private, x25519_derive}
use webtoken.Paseto.{slice}
use webtoken.Paseto.Local.{url_decode_or}
use webtoken.Paseto.Paserk.{
  is_some, password_fields, password_ek, password_ak, seal_ek, seal_ak, seal_nonce, pie_stream,
  pie_ak,
}

abbrev failed_to_unwrap : WebtokenError
failed_to_unwrap = invalid_key (lit "Failed to unwrap a key.")

abbrev invalid_type : Text → WebtokenError
invalid_type parsed = invalid_key (lit "Invalid PASERK type: " ++ parsed ++ lit ".")

-- The purpose the caller expects, against the one in the text.
unfoldable pub check_purpose : Option Text → Text → Result WebtokenError (Unit {0})
check_purpose none parsed = ok tt
check_purpose (some expected) parsed = guard (eqb expected parsed) (invalid_type parsed)

-- The purpose of a plain key.
unfoldable pub check_plain_purpose : Option Text → Text → Result WebtokenError (Unit {0})
check_plain_purpose (some expected) parsed = guard (eqb expected parsed) (invalid_type parsed)
check_plain_purpose none parsed =
    guard (is parsed "local" || (is parsed "public" || is parsed "secret")) (invalid_type parsed)

module _ (p : Primitives) where
  -- The body of a wrapped key: tag, nonce and ciphertext.
  unfoldable pub unwrap_body : Text → Bytes → Bytes → Result WebtokenError Bytes
  unwrap_body header wk bytes = do
    guard (length wk == 32) (invalid_key (lit "Wrapping key must be 32 bytes."))
    guard (leb 64 (length bytes)) failed_to_unwrap
    let t = take 32 bytes
    let n = slice 32 64 bytes
    let c = drop 64 bytes
    guard (eqb (p.blake2b_keyed_hash 32 (pie_ak p wk n) (header ++ (n ++ c))) t) failed_to_unwrap
    ok (pie_stream p wk n c)

  unfoldable pub unwrap_with : Text → Option Bytes → Bytes → Result WebtokenError Bytes
  unwrap_with header none bytes = err failed_to_unwrap
  unwrap_with header (some wk) bytes = unwrap_body header wk bytes

  -- The body of a key under a password.
  unfoldable pub password_body : Text → Bytes → Bytes → Result WebtokenError Bytes
  password_body header pwd d = do
    guard (leb 120 (length d)) failed_to_unwrap
    let s = take 16 d
    let mem = slice 16 24 d
    let time = slice 24 28 d
    let para = slice 28 32 d
    let n = slice 32 56 d
    let edk = slice 56 (length d - 32) d
    let t = drop (length d - 32) d
    let m_cost = from_be_bytes 0 mem / 1024 % 2 ^ 32
    let t_cost = from_be_bytes 0 time
    let p_cost = from_be_bytes 0 para
    guard (p.argon2_params m_cost t_cost p_cost) (invalid_key (lit "Invalid Argon2 parameters"))
    k ←
        map_err (λ _. invalid_key (lit "Argon2 hash failed"))
          (p.argon2id m_cost t_cost p_cost pwd s)
    let fields = password_fields s mem time para n edk
    guard (eqb t (p.blake2b_keyed_hash 32 (password_ak p k) (header ++ fields))) failed_to_unwrap
    ok (p.xchacha20 (password_ek p k) n edk)

module _ (b64 : Base64) (p : Primitives) (to_text : ℕ → Text) where
  -- The body of a sealed key, with the private key read.
  unfoldable pub seal_body : Bytes → Bytes → Result WebtokenError Bytes
  seal_body xsk bytes = do
    guard (leb 96 (length bytes)) (invalid_key (lit "Failed to unseal a key."))
    let t = take 32 bytes
    let epk = slice 32 64 bytes
    let edk = drop 64 bytes
    xpk ← x25519_public_from_private b64 p to_text xsk
    xk ← x25519_derive b64 p to_text xsk epk
    guard (eqb t (p.blake2b_keyed_hash 32 (seal_ak p xk epk xpk) (lit "k4.seal." ++ (epk ++ edk))))
        (invalid_key (lit "Failed to unseal a key."))
    ok (p.xchacha20 (seal_ek p xk epk xpk) (seal_nonce p epk xpk) edk)

  -- The branches of decode_paserk, by the second part and what follows it.
  unfoldable pub decode_wrapped :
      Option Text → Option Bytes → Text → List Text → Result WebtokenError Bytes
  decode_wrapped purpose wrapping kind (scheme ∷ body ∷ []) = do
    guard (is scheme "pie") (invalid_key (lit "Invalid PASERK format."))
    check_purpose purpose (if is kind "local-wrap" then lit "local" else lit "secret")
    bytes ← url_decode_or b64 (invalid_key (lit "Invalid Base64")) body
    unwrap_with p (lit "k4." ++ kind ++ lit ".pie.") wrapping bytes
  decode_wrapped purpose wrapping kind rest = err (invalid_key (lit "Invalid PASERK format."))

  unfoldable pub decode_password :
      Option Text → Option Bytes → Text → List Text → Result WebtokenError Bytes
  decode_password purpose password kind (body ∷ []) = do
    check_purpose purpose (if is kind "local-pw" then lit "local" else lit "secret")
    pwd ← ok_or password (invalid_key (kind ++ lit " needs password."))
    bytes ← url_decode_or b64 (invalid_key (lit "Invalid Base64")) body
    password_body p (lit "k4." ++ kind ++ lit ".") pwd bytes
  decode_password purpose password kind rest = err (invalid_key (lit "Invalid PASERK format."))

  -- Only `parts[2]` is read; there is one at least.
  unfoldable pub decode_sealed : Option Bytes → List Text → Result WebtokenError Bytes
  decode_sealed unsealing [] = panic
  decode_sealed unsealing (body ∷ rest) = do
    xsk_input ← ok_or unsealing (invalid_key (lit "seal needs unsealing_key."))
    xsk ← extract_x25519_bytes b64 to_text xsk_input
    bytes ← url_decode_or b64 (invalid_key (lit "Invalid Base64")) body
    seal_body xsk bytes

  unfoldable pub decode_plain : Option Text → Bool → Text → List Text → Result WebtokenError Bytes
  decode_plain purpose with_secret kind (body ∷ []) = do
    guard (not with_secret) (invalid_type kind)
    check_plain_purpose purpose kind
    url_decode_or b64 (invalid_key (lit "Invalid Base64")) body
  decode_plain purpose with_secret kind rest = err (invalid_key (lit "Invalid PASERK format."))

  unfoldable pub decode_kind :
      Option Text
      → Option Bytes
      → Option Bytes
      → Option Bytes
      → Text
      → List Text
      → Result WebtokenError Bytes
  decode_kind purpose wrapping password unsealing kind rest =
      if is kind "local-wrap" || is kind "secret-wrap"
      then decode_wrapped purpose wrapping kind rest
      else if is kind "local-pw" || is kind "secret-pw"
      then decode_password purpose password kind rest
      else if is kind "seal"
      then decode_sealed unsealing rest
      else decode_plain purpose (is_some wrapping || is_some password) kind rest

  -- The test for three or four parts and for the version.
  unfoldable pub decode_parts :
      Option Text
      → Option Bytes
      → Option Bytes
      → Option Bytes
      → List Text
      → Result WebtokenError Bytes
  decode_parts purpose wrapping password unsealing (version ∷ kind ∷ third ∷ rest) = do
    guard (leb (length rest) 1) (invalid_key (lit "Invalid PASERK format."))
    guard (is version "k4") (invalid_key (lit "Invalid PASERK version: " ++ version ++ lit "."))
    decode_kind purpose wrapping password unsealing kind (third ∷ rest)
  decode_parts purpose wrapping password unsealing parts =
      err (invalid_key (lit "Invalid PASERK format."))

  -- decode_paserk: text, purpose, wrapping key, password, unsealing key.
  unfoldable pub decode_paserk :
      Text → Option Text → Option Bytes → Option Bytes → Option Bytes → Result WebtokenError Bytes
  decode_paserk paserk purpose wrapping password unsealing = do
    guard (not (is_some wrapping && is_some password))
        (invalid_key (lit "Only one of wrapping_key or password should be specified."))
    decode_parts purpose wrapping password unsealing (split_dots paserk)
