-- ===== src/Paseto/Wrapping.antt =====
-- src/paseto.rs: the functions `paserk_wrap_pie`, `paserk_wrap_pbkw` and `paserk_seal` with their
-- inverses, and the hash helpers they use. A draw is what `get_random_bytes` returns.
pub mod RoundTrip
use webtoken.Common.{
  ℕ, zero, suc, ◌+◌, ◌-◌, ◌*◌, ◌/◌, ◌%◌, ◌^◌, ◌≤◌, ◌<◌, bit_and, bit_or, ◌≡◌, refl, sym, ap, ◌∙◌,
  ◌≢◌, ◌↔◌, ◌⊎◌, inl, inr, Bool, true, false, not, ◌&&◌, ◌||◌, List, [], ◌∷◌, ◌++◌, append-nil,
  append_assoc, Option, none, some, Bytes, Text, bit_and_low, IsByte, AreBytes, Result, ok, err,
  panic, ◌>>=◌, ◌>>◌, guard, ok_or, map_err, >>=-eq-ok, guard-eq-ok, ltb, leb, ◌==◌, if◌then◌else◌,
  ==_iff, ltb-false, ltb-true, Bool-cases, Option-cases, and_true, length, take, drop, All,
  length-append, take-append-drop, length-take, length-drop, take-length_append, drop-length_append,
  drop-drop, drop-past, All-append, append_inj, lit, eqb, is, starts_with, eqb_refl, eqb→eq,
  eqb_iff, is→eq, is_lit, starts_with-append, to_be_bytes, to_le_bytes, from_be_bytes,
  length-to_le_bytes, length-to_be_bytes, to_le_bytes_inj, NoDot, ◌⊙◌, split_dots, split_dots-join,
  split_dots-NoDot, arith,
}
use webtoken.Errors.{
  WebtokenError, generic, invalid_key, invalid_token, decode_error, invalid_signature,
}
use webtoken.External.{Base64}
use webtoken.Primitives.{Primitives}
use webtoken.KeyBytes.{x25519_public_from_private}
use webtoken.Paseto.{slice}
use webtoken.Paseto.Local.{url_decode_or}

-- A purpose with its header.
unfoldable pub header_for : Text → Text → Text → Text → Result WebtokenError Text
header_for purpose local_header secret_header what =
    if is purpose "local"
    then ok local_header
    else if is purpose "secret"
    then ok secret_header
    else err (generic (lit "Invalid " ++ what ++ lit " purpose"))

-- The header that a text starts with, and the text behind it.
unfoldable pub behind_header :
    Text → Text → WebtokenError → Text → Result WebtokenError (Text × Text)
behind_header local_header secret_header e paserk =
    if starts_with local_header paserk
    then ok (local_header, drop (length local_header) paserk)
    else if starts_with secret_header paserk
    then ok (secret_header, drop (length secret_header) paserk)
    else err e

module _ (p : Primitives) where
  -- blake2b_mac; `blake2b_simd` panics on a key of more than 64 bytes.
  unfoldable pub blake2b_mac : Bytes → Bytes → ℕ → Result WebtokenError Bytes
  blake2b_mac key message len =
      if leb (length key) 64 then ok (p.blake2b_keyed_hash len key message) else panic

  -- blake2b
  unfoldable pub blake2b : Bytes → ℕ → Bytes
  blake2b message len = p.blake2b_hash len message

module _ (b64 : Base64) (p : Primitives) where
  -- paserk_wrap_pie
  unfoldable pub paserk_wrap_pie :
      Result WebtokenError Bytes → Bytes → Bytes → Text → Result WebtokenError Text
  paserk_wrap_pie draw wrapping_key target_key purpose = do
    header ←
        header_for purpose (lit "k4.local-wrap.pie.") (lit "k4.secret-wrap.pie.") (lit "PIE wrap")
    nonce ← draw
    x ← blake2b_mac p wrapping_key (0x80 ∷ nonce) 56
    ak ← blake2b_mac p wrapping_key (0x81 ∷ nonce) 32
    let c = p.xchacha20 (take 32 x) (slice 32 56 x) target_key
    t ← blake2b_mac p ak (header ++ (nonce ++ c)) 32
    ok (header ++ b64.url_encode (t ++ (nonce ++ c)))

  -- paserk_unwrap_pie behind the header.
  unfoldable pub unwrap_pie_body : Bytes → Text → Text → Result WebtokenError Bytes
  unwrap_pie_body wrapping_key header b64_text = do
    bytes ← url_decode_or b64 (decode_error (lit "Base64 error")) b64_text
    guard (leb 64 (length bytes)) (invalid_token (lit "Data too short"))
    let t = take 32 bytes
    let nonce = slice 32 64 bytes
    let c = drop 64 bytes
    ak ← blake2b_mac p wrapping_key (0x81 ∷ nonce) 32
    expected ← blake2b_mac p ak (header ++ (nonce ++ c)) 32
    guard (eqb t expected) invalid_signature
    x ← blake2b_mac p wrapping_key (0x80 ∷ nonce) 56
    ok (p.xchacha20 (take 32 x) (slice 32 56 x) c)

  -- paserk_unwrap_pie
  unfoldable pub paserk_unwrap_pie : Bytes → Text → Result WebtokenError Bytes
  paserk_unwrap_pie wrapping_key paserk = do
    (header, b64_text) ←
        behind_header (lit "k4.local-wrap.pie.") (lit "k4.secret-wrap.pie.")
          (invalid_token (lit "Invalid PIE header")) paserk
    unwrap_pie_body wrapping_key header b64_text

  -- The Argon2id hash with its parameters from the fields of a key under a password.
  unfoldable pub derive_psk : Bytes → Bytes → ℕ → ℕ → ℕ → Result WebtokenError Bytes
  derive_psk password salt memlimit opslimit parallelism = do
    guard (p.argon2_params (memlimit / 1024 % 2 ^ 32) opslimit parallelism)
        (generic (lit "Invalid Argon2 parameters"))
    map_err (λ _. generic (lit "Argon2 error"))
        (p.argon2id (memlimit / 1024 % 2 ^ 32) opslimit parallelism password salt)

  -- paserk_wrap_pbkw
  unfoldable pub paserk_wrap_pbkw :
      Result WebtokenError Bytes
      → Result WebtokenError Bytes
      → Bytes
      → Bytes
      → Text
      → ℕ
      → ℕ
      → ℕ
      → Result WebtokenError Text
  paserk_wrap_pbkw salt_draw nonce_draw password target_key purpose memlimit opslimit parallelism =
      do
        header ← header_for purpose (lit "k4.local-pw.") (lit "k4.secret-pw.") (lit "PBKW")
        salt ← salt_draw
        nonce ← nonce_draw
        psk ← derive_psk password salt memlimit opslimit parallelism
        let ek = blake2b p (0xFF ∷ psk) 32
        let ak = blake2b p (0xFE ∷ psk) 32
        let c = p.xchacha20 ek nonce target_key
        let fields =
            salt
            ++ (to_be_bytes 8 memlimit
                ++ (to_be_bytes 4 opslimit ++ (to_be_bytes 4 parallelism ++ (nonce ++ c))))
        t ← blake2b_mac p ak (header ++ fields) 32
        ok (header ++ b64.url_encode (fields ++ t))

  -- paserk_unwrap_pbkw behind the header.
  unfoldable pub unwrap_pbkw_body : Bytes → Text → Text → Result WebtokenError Bytes
  unwrap_pbkw_body password header b64_text = do
    bytes ← url_decode_or b64 (decode_error (lit "Base64 error")) b64_text
    guard (leb 88 (length bytes)) (invalid_token (lit "Data too short"))
    let salt = take 16 bytes
    let memlimit = slice 16 24 bytes
    let opslimit = slice 24 28 bytes
    let parallelism = slice 28 32 bytes
    let nonce = slice 32 56 bytes
    let c_len = length bytes - 56 - 32
    let c = take c_len (drop 56 bytes)
    let t = drop (56 + c_len) bytes
    psk ←
        derive_psk password salt (from_be_bytes 0 memlimit) (from_be_bytes 0 opslimit)
          (from_be_bytes 0 parallelism)
    let ek = blake2b p (0xFF ∷ psk) 32
    let ak = blake2b p (0xFE ∷ psk) 32
    expected ←
        blake2b_mac p ak
          (header ++ (salt ++ (memlimit ++ (opslimit ++ (parallelism ++ (nonce ++ c)))))) 32
    guard (eqb t expected) invalid_signature
    ok (p.xchacha20 ek nonce c)

  -- paserk_unwrap_pbkw
  unfoldable pub paserk_unwrap_pbkw : Bytes → Text → Result WebtokenError Bytes
  paserk_unwrap_pbkw password paserk = do
    (header, b64_text) ←
        behind_header (lit "k4.local-pw.") (lit "k4.secret-pw.")
          (invalid_token (lit "Invalid PBKW header")) paserk
    unwrap_pbkw_body password header b64_text

  -- Keys and nonce of a sealed key.
  unfoldable pub sealed_key : ℕ → Bytes → Bytes → Bytes → Bytes
  sealed_key tag xk epk xpk = blake2b p (tag ∷ (lit "k4.seal." ++ (xk ++ (epk ++ xpk)))) 32

  -- The public key that paserk_seal takes the sealing key for.
  abbrev recipient_public : Bytes → Result WebtokenError Bytes → Bytes
  recipient_public sealing_key (ok public) = public
  recipient_public sealing_key _ = sealing_key

  -- paserk_seal
  unfoldable pub paserk_seal :
      (ℕ → Text) → Result WebtokenError Bytes → Bytes → Bytes → Result WebtokenError Text
  paserk_seal to_text draw sealing_key target_key = do
    let xpk = recipient_public sealing_key (x25519_public_from_private b64 p to_text sealing_key)
    esk ← draw
    guard (length esk == 32) (generic (lit "Failed to create ephemeral key"))
    let epk = p.x25519_public esk
    guard (length xpk == 32) (generic (lit "Failed to parse recipient public key"))
    xk ← ok_or (p.x25519_shared esk xpk) (generic (lit "ECDH Failed"))
    let ak = sealed_key 0x02 xk epk xpk
    let c = p.xchacha20 (sealed_key 0x01 xk epk xpk) (blake2b p (epk ++ xpk) 24) target_key
    t ← blake2b_mac p ak (lit "k4.seal." ++ (epk ++ c)) 32
    ok (lit "k4.seal." ++ b64.url_encode (t ++ (epk ++ c)))

-- The clamped first 32 bytes of the hash of an Ed25519 seed.
unfoldable pub clamp : Bytes → Bytes
clamp [] = []
clamp (b ∷ bs) = bit_and b 248 ∷ (take 30 bs ++ clamp_last (drop 30 bs))
  where
    clamp_last : Bytes → Bytes
    clamp_last [] = []
    clamp_last (c ∷ cs) = (bit_or (bit_and c 127) 64) ∷ cs

module _ (b64 : Base64) (p : Primitives) (sha512 : Bytes → Bytes) where
  -- The X25519 private key of paserk_unseal, from an Ed25519 pair or as it is.
  unfoldable pub unsealing_scalar : Bytes → Result WebtokenError Bytes
  unsealing_scalar unsealing_key =
      if length unsealing_key == 64
      then ok (clamp (take 32 (sha512 (take 32 unsealing_key))))
      else if length unsealing_key == 32
      then ok unsealing_key
      else err (invalid_key (lit "Invalid unsealing key length"))

  -- paserk_unseal
  unfoldable pub paserk_unseal : Bytes → Text → Result WebtokenError Bytes
  paserk_unseal unsealing_key paserk = do
    guard (starts_with (lit "k4.seal.") paserk) (invalid_token (lit "Invalid seal header"))
    bytes ← url_decode_or b64 (decode_error (lit "Base64 error")) (drop 8 paserk)
    guard (leb 96 (length bytes)) (invalid_token (lit "Data too short"))
    let t = take 32 bytes
    let epk = slice 32 64 bytes
    let c = drop 64 bytes
    xsk ← unsealing_scalar unsealing_key
    let xpk = p.x25519_public xsk
    xk ← ok_or (p.x25519_shared xsk epk) (generic (lit "ECDH Failed"))
    expected ← blake2b_mac p (sealed_key b64 p 0x02 xk epk xpk) (lit "k4.seal." ++ (epk ++ c)) 32
    guard (eqb t expected) invalid_signature
    ok (p.xchacha20 (sealed_key b64 p 0x01 xk epk xpk) (blake2b p (epk ++ xpk) 24) c)
