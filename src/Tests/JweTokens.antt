-- ===== src/Tests/JweTokens.antt =====
-- Runs of the content encryption of src/jwe.rs and of the key derivation of src/crypto.rs.
use webtoken.Common.{
  ℕ, ◌+◌, ◌/◌, ◌%◌, ◌≡◌, refl, sym, false, [], ◌∷◌, ◌++◌, append-nil, Option, none, some, Bytes,
  Text, Result, ok, length, take, drop, lit, eqb, is, to_be_bytes, arith,
}
use webtoken.Errors.{WebtokenError}
use webtoken.Signing.{sha256}
use webtoken.Hkdf.{hkdf_sha256, blocks, hkdf_sha256-blocks}
use webtoken.Jwe.Ciphers.{CipherSuite, aes_cbc_encrypt, aes_cbc_decrypt, hmac_sign}
use webtoken.Jwe.Content.{
  is_gcm, is_cbc_hmac, hmac_alg, mac_input, first_half, composite_tag, encrypt_cbc_hmac,
  decrypt_cbc_hmac, encrypt_content, decrypt_content,
}
use webtoken.Jwe.Content.RoundTrip.{CipherLaws, DrawsFully, decrypt_content-encrypt_content}
use webtoken.Jwe.Content.Authentic.{decrypt_cbc_hmac_authentic}
use webtoken.Jwe.Derivation.{concat_kdf_sha256, length-concat_kdf_sha256}
use webtoken.External.{JsonCodec}
use webtoken.Json.{Fields, string, object, end, field, lookup, get}
use webtoken.Api.RoundTrip.{HeaderText}
use webtoken.Jwe.{Deflate, text_of, compress, encrypt_compact, decrypt_compact}
use webtoken.Jwe.Ciphers.{aes_key_wrap}
use webtoken.Jwe.Content.{get_cek_length}
use webtoken.Jwe.Content.Output.{OutputLaws, DrawsBytes}
use webtoken.Jwe.KeyManagement.{
  JweDraws, JsonNumbers, is_oaep, is_key_wrap, wrap_drawn, manage_cek_encrypt,
}
use webtoken.Jwe.RoundTrip.{
  a128kw, alg_name, KeyWrapLaws, DeflateLaws, ok-inj, decrypt_compact-encrypt_compact,
}
use webtoken.Common.{err, true, AreBytes, ◌⊙◌, if◌then◌else◌, Text, lit, eqb, IsByte, All-append}
use webtoken.Tests.Instances.{
  are_bytes, are_bytes-AreBytes, hex_encode, base, base_laws, primitives, fill, length-fill,
  fill-AreBytes,
}

-- Ciphers that leave the data as it is, with constant tags.
unfoldable suite : CipherSuite
suite = record {
  RsaPublic = Unit {0};
  RsaPrivate = Unit {0};
  rsa_public_from_der = λ d. none;
  rsa_private_from_pkcs8 = λ d. none;
  oaep_takes_public = λ k. false;
  oaep_takes_private = λ k. false;
  pkcs1_takes_public = λ k. false;
  pkcs1_takes_private = λ k. false;
  oaep_encrypt = λ h k m. none;
  oaep_decrypt = λ h k m. none;
  pkcs1_encrypt = λ k m. none;
  pkcs1_decrypt = λ k m. none;
  kw_wrap = λ k m. some (fill 8 1 ++ m);
  kw_unwrap = λ k m. some (drop 8 m);
  cbc_encrypt = λ k n m. some m;
  cbc_decrypt = λ k n m. some m;
  gcm_seal = λ k n a m. some (m, []);
  gcm_open = λ k n a m. some m;
  c20p_seal = λ k n a m. (m, fill 16 2);
  c20p_open = λ k n a m t. some m;
  xc20p_seal = λ k n a m. (m, fill 16 3);
  xc20p_open = λ k n a m t. some m;
  hmac = λ h k m. fill 32 ((length k + length m) % 256);
  sha256_digest = λ m. fill 32 (length m % 256);
}

same_some : (m ct : Bytes) → some m ≡ some ct → some ct ≡ some m
same_some m ct e = sym e

abbrev sealed : Bytes → Bytes → Option (Bytes × Bytes)
sealed ct tag = some (ct, tag)

same_of_pair : (m ct tag : Bytes) → sealed m [] ≡ sealed ct tag → (m ≡ ct) × ([] ≡ tag)
same_of_pair m ct tag e = (ground arith, ground arith)

same_of : (m ct : Bytes) → some m ≡ some ct → m ≡ ct
same_of m ct e = cc

same_pair : (m ct tag : Bytes) → sealed m [] ≡ sealed ct tag → some (ct ++ tag) ≡ some m
same_pair m ct tag e =
    let same : m ≡ ct = ground arith in
    let nothing : [] ≡ tag = ground arith in rw (← same, ← nothing) (rw (append-nil m))

suite_laws : CipherLaws suite
unfolding suite
suite_laws = record {
  cbc_decrypts = λ k n m ct e. same_some m ct e;
  gcm_opens = λ k n a m ct tag e. same_pair m ct tag e;
  c20p_opens = λ k n a m. refl;
  length-c20p_tag = λ k n a m. refl;
  xc20p_opens = λ k n a m. refl;
  length-xc20p_tag = λ k n a m. refl;
}

abbrev draw : ℕ → Result WebtokenError Bytes
draw k = ok (fill k 5)

draws_fully : DrawsFully draw
draws_fully k bytes e = let same : fill k 5 ≡ bytes = cc in rw (← same) (length-fill k 5)

abbrev cek : Bytes
cek = fill 32 1

encrypted :
    encrypt_content suite draw (lit "A128CBC-HS256") cek (1 ∷ 2 ∷ []) (9 ∷ [])
    ≡ ok (1 ∷ 2 ∷ [], fill 16 43, fill 16 5)
unfolding encrypt_content encrypt_cbc_hmac composite_tag aes_cbc_encrypt hmac_sign hmac_alg
    mac_input is_gcm is_cbc_hmac is eqb lit to_be_bytes suite
encrypted = refl

decrypt_content-encrypt_content_example :
    decrypt_content suite (lit "A128CBC-HS256") cek (1 ∷ 2 ∷ []) (9 ∷ []) (fill 16 5) (fill 16 43)
    ≡ ok (1 ∷ 2 ∷ [])
decrypt_content-encrypt_content_example =
    decrypt_content-encrypt_content suite_laws draw draws_fully (lit "A128CBC-HS256") cek
      (1 ∷ 2 ∷ []) (9 ∷ []) (1 ∷ 2 ∷ []) (fill 16 43) (fill 16 5) encrypted

decrypted :
    decrypt_cbc_hmac suite (lit "A128CBC-HS256") cek (1 ∷ 2 ∷ []) (9 ∷ []) (fill 16 5) (fill 16 43)
    ≡ ok (1 ∷ 2 ∷ [])
unfolding decrypt_cbc_hmac composite_tag aes_cbc_decrypt hmac_sign hmac_alg mac_input is eqb lit
    to_be_bytes suite
decrypted = refl

decrypt_cbc_hmac_authentic_example :
    (alg : Text) × (full_tag : Bytes) × (hmac_alg (lit "A128CBC-HS256") ≡ ok alg)
    × (hmac_sign suite (take 16 cek) (mac_input (9 ∷ []) (fill 16 5) (1 ∷ 2 ∷ [])) alg
        ≡ ok full_tag)
    × (fill 16 43 ≡ first_half full_tag)
    × (aes_cbc_decrypt suite (drop 16 cek) (fill 16 5) (1 ∷ 2 ∷ []) ≡ ok (1 ∷ 2 ∷ []))
decrypt_cbc_hmac_authentic_example =
    decrypt_cbc_hmac_authentic suite (lit "A128CBC-HS256") cek (1 ∷ 2 ∷ []) (9 ∷ []) (fill 16 5)
      (fill 16 43) (1 ∷ 2 ∷ []) decrypted

digest_length : (bytes : Bytes) → length (suite.sha256_digest bytes) ≡ 32
unfolding suite
digest_length bytes = refl

length-concat_kdf_sha256_example :
    length (concat_kdf_sha256 suite (1 ∷ []) 384 (lit "A192KW") [] []) ≡ 384 / 8
length-concat_kdf_sha256_example =
    length-concat_kdf_sha256 suite digest_length (1 ∷ []) (lit "A192KW") [] [] 384

hmac_length : (key bytes : Bytes) → length (suite.hmac sha256 key bytes) ≡ 32
unfolding suite
hmac_length key bytes = refl

hkdf_sha256-blocks_example :
    hkdf_sha256 suite (1 ∷ []) (2 ∷ []) (3 ∷ []) 40
    ≡ take 40 (blocks suite (suite.hmac sha256 (2 ∷ []) (1 ∷ [])) (3 ∷ []) 2)
hkdf_sha256-blocks_example =
    hkdf_sha256-blocks suite hmac_length (1 ∷ []) (2 ∷ []) (3 ∷ []) 40 2 (omega arith) (omega arith)

abbrev jwe_header : Fields
jwe_header =
    field (lit "alg") (string (lit "A128KW")) (field (lit "enc") (string (lit "A128CBC-HS256")) end)

abbrev jwe_text : Text
jwe_text = lit "{\"alg\":\"A128KW\",\"enc\":\"A128CBC-HS256\"}"

-- The one header.
unfoldable jwe_json : JsonCodec
jwe_json = record {
  to_vec = λ v. ok jwe_text;
  from_slice = λ t. if eqb t jwe_text then ok (object jwe_header) else err (lit "unknown");
  alg_error = λ v. lit "alg";
}

text_are_bytes : are_bytes jwe_text ≡ true
unfolding lit
text_are_bytes = refl

header : HeaderText jwe_json jwe_header
unfolding jwe_json eqb lit
header = record {
  text = jwe_text;
  text_AreBytes = are_bytes-AreBytes jwe_text text_are_bytes;
  written = refl;
  read = refl;
}

nothing_bytes : (tag : Bytes) → [] ≡ tag → AreBytes tag
nothing_bytes tag e = rw (← e) tt

output_laws : OutputLaws suite
unfolding suite
output_laws = record {
  cbc_bytes = λ k n m ct mb e. let same : m ≡ ct = same_of m ct e in rw same at mb;
  gcm_bytes = λ k n a m ct tag mb e.
      (rw (same_of_pair m ct tag e).0 at mb, nothing_bytes tag (same_of_pair m ct tag e).1);
  c20p_bytes = λ k n a m mb. (mb, fill-AreBytes 16 2 (omega arith));
  xc20p_bytes = λ k n a m mb. (mb, fill-AreBytes 16 3 (omega arith));
  hmac_bytes = λ h k m. fill-AreBytes 32 _ (omega arith);
  kw_bytes = λ k m w mb e.
      let same : fill 8 1 ++ m ≡ w = same_of (fill 8 1 ++ m) w e in
      rw (← same) (All-append IsByte (fill 8 1) m (fill-AreBytes 8 1 (omega arith)) mb);
}

key_wrap_laws : KeyWrapLaws suite
unfolding suite
key_wrap_laws = record {
  unwraps =
      λ k m w e. let same : fill 8 1 ++ m ≡ w = same_of (fill 8 1 ++ m) w e in rw (← same) refl;
  wrapped_length = λ k m w e.
      let same : fill 8 1 ++ m ≡ w = same_of (fill 8 1 ++ m) w e in rw (← same) (omega arith);
}

abbrev stored : Deflate
stored = record { deflate = λ m. ok m; inflate = λ m. ok m }

same_stored : (m out : Bytes) → stored.deflate m ≡ ok out → m ≡ out
same_stored m out e = cc

stored_laws : DeflateLaws stored
stored_laws = record {
  compressed_bytes = λ m out mb e. rw (same_stored m out e) at mb;
  inflates = λ m out e. sym e;
}

abbrev numbers : JsonNumbers
numbers = record { to_text = λ n. []; as_u64 = λ t. none }

abbrev draws : JweDraws
draws = record { cek = draw; ephemeral = draw; salt = draw; nonce = draw }

draws_bytes : DrawsBytes draw
draws_bytes k bytes e =
    let same : fill k 5 ≡ bytes = ok-inj (fill k 5) bytes e in
    rw same at (fill-AreBytes k 5 (omega arith))

abbrev jwe_token : Text
jwe_token =
    hex_encode jwe_text
    ⊙ hex_encode (fill 8 1 ++ fill 32 5)
    ⊙ hex_encode (fill 16 5)
    ⊙ hex_encode (1 ∷ 2 ∷ [])
    ⊙ hex_encode (fill 16 118)

jwe_encrypted :
    encrypt_compact base jwe_json suite primitives numbers stored draws
      (object jwe_header)
      (1 ∷ 2 ∷ [])
      (fill 16 1)
    ≡ ok jwe_token
unfolding encrypt_compact text_of get lookup compress manage_cek_encrypt get_cek_length is_oaep
    is_key_wrap wrap_drawn aes_key_wrap encrypt_content encrypt_cbc_hmac composite_tag
    aes_cbc_encrypt hmac_sign hmac_alg mac_input is_gcm is_cbc_hmac is eqb lit to_be_bytes suite
    jwe_json base hex_encode
jwe_encrypted = refl

alg_named : lookup (lit "alg") jwe_header ≡ some (string (alg_name a128kw))
unfolding lookup alg_name eqb lit
alg_named = refl

enc_named : lookup (lit "enc") jwe_header ≡ some (string (lit "A128CBC-HS256"))
unfolding lookup eqb lit
enc_named = refl

decrypt_compact-encrypt_compact_example :
    decrypt_compact base jwe_json suite primitives numbers stored jwe_token (fill 16 1)
    ≡ ok (1 ∷ 2 ∷ [])
decrypt_compact-encrypt_compact_example =
    decrypt_compact-encrypt_compact base_laws jwe_json suite_laws output_laws key_wrap_laws
      primitives numbers stored_laws draws draws_fully draws_bytes draws_bytes a128kw
      (lit "A128CBC-HS256") jwe_header header alg_named enc_named (1 ∷ 2 ∷ []) (fill 16 1) jwe_token
      (are_bytes-AreBytes (1 ∷ 2 ∷ []) refl) jwe_encrypted
