-- ===== src/Tests/PasetoTokens.antt =====
-- Runs of the PASETO and PASERK functions of src/paseto.rs.
use webtoken.Common.{
  ◌%◌, ◌≡◌, refl, inl, true, List, [], ◌∷◌, ◌++◌, none, some, Bytes, Text, ok, length, lit, eqb, is,
  starts_with, to_le_bytes, split_dots, arith,
}
use webtoken.Paseto.{
  pae, apply_keystream, encryption_key, auth_key, local_tag, pae_pieces, paseto_v4_decrypt,
}
use webtoken.Paseto.Pae.{pae_inj}
use webtoken.Paseto.Local.{
  encrypt_v4_local, decrypt_v4_local, paseto_v4_decrypt_authentic, body_and_footer,
}
use webtoken.Paseto.Local.RoundTrip.{decrypt_v4_local-encrypt_v4_local}
use webtoken.Paseto.Public.{
  signed_message, sign_v4_public, verify_v4_public, verify_v4_public-sign_v4_public,
  verify_v4_public_authentic,
}
use webtoken.KeyBytes.{ed25519_public_from_seed}
use webtoken.Paseto.Paserk.{Draws, key_for_purpose, encode_paserk, encode_wrapped}
use webtoken.Paseto.Paserk.Reading.{decode_paserk}
use webtoken.Paseto.Paserk.RoundTrip.{local, secret, name, decode_paserk-encode_paserk_wrapped}
use webtoken.Paseto.Paserk.Passwords.{decode_paserk-encode_paserk_password}
use webtoken.Paseto.Wrapping.{paserk_wrap_pie, paserk_unwrap_pie}
use webtoken.Paseto.Wrapping.RoundTrip.{
  paserk_unwrap_pie-paserk_wrap_pie, encode_wrapped-paserk_wrap_pie,
}
use webtoken.Tests.Instances.{
  are_bytes-AreBytes, hex_encode, hex_decode, base, base_laws, signer, signer_keys, fill,
  fill-AreBytes, primitives, primitives_laws,
}

abbrev key : Bytes
key = fill 32 1

abbrev nonce : Bytes
nonce = fill 32 2

abbrev pieces : List Bytes
pieces = (1 ∷ []) ∷ []

pae_inj_example : pieces ≡ pieces
pae_inj_example =
    pae_inj pieces pieces (omega arith) (omega arith) (omega arith, tt) (omega arith, tt) refl

decrypt_v4_local-encrypt_v4_local_example :
    (token : Text) × (encrypt_v4_local base primitives key
        (5 ∷ 6 ∷ [])
        (7 ∷ [])
        (8 ∷ [])
        none
        (ok nonce)
      ≡ ok token)
    × (decrypt_v4_local base primitives token key (8 ∷ []) ≡ ok (5 ∷ 6 ∷ [], 7 ∷ []))
decrypt_v4_local-encrypt_v4_local_example =
    decrypt_v4_local-encrypt_v4_local base_laws primitives_laws key nonce (5 ∷ 6 ∷ []) (7 ∷ [])
      (8 ∷ []) refl refl (fill-AreBytes 32 2 (omega arith)) (are_bytes-AreBytes (5 ∷ 6 ∷ []) refl)
      (are_bytes-AreBytes (7 ∷ []) refl)

abbrev body : Bytes
body = nonce ++ ((4 ∷ 7 ∷ []) ++ fill 32 125)

body_decrypts : paseto_v4_decrypt primitives key body (7 ∷ []) (8 ∷ []) ≡ ok (5 ∷ 6 ∷ [])
unfolding paseto_v4_decrypt local_tag pae pae_pieces apply_keystream encryption_key auth_key
    primitives eqb lit to_le_bytes
body_decrypts = refl

paseto_v4_decrypt_authentic_example :
    (n ciphertext : Bytes) × (body
      ≡ n ++ (ciphertext ++ local_tag primitives key n ciphertext (7 ∷ []) (8 ∷ [])))
    × (length n ≡ 32)
    × (5 ∷ 6 ∷ [] ≡ apply_keystream primitives (encryption_key primitives key n) ciphertext)
paseto_v4_decrypt_authentic_example =
    paseto_v4_decrypt_authentic primitives key body (7 ∷ []) (8 ∷ []) (5 ∷ 6 ∷ []) body_decrypts

abbrev signing_key : Bytes
signing_key = fill 63 3

signature_length :
    (message sig : Bytes)
    → signer.sign (lit "Ed25519") signing_key message ≡ ok sig
    → length sig ≡ 64
unfolding signer
signature_length message sig e =
    let same : (length message % 256) ∷ signing_key ≡ sig = cc in rw (← same) refl

verify_v4_public-sign_v4_public_example :
    (token : Text) × (sign_v4_public base signer signing_key (5 ∷ []) [] [] ≡ ok token)
    × (verify_v4_public base signer token signing_key [] ≡ ok (5 ∷ [], []))
verify_v4_public-sign_v4_public_example =
    verify_v4_public-sign_v4_public base_laws signer signing_key signing_key
      (signer_keys (lit "Ed25519") signing_key (fill-AreBytes 63 3 (omega arith))) signature_length
      (5 ∷ []) [] [] (are_bytes-AreBytes (5 ∷ []) refl) tt

abbrev signed_token : Text
signed_token = lit "v4.public." ++ hex_encode ((5 ∷ []) ++ 51 ∷ signing_key)

signed_token_verifies : verify_v4_public base signer signed_token signing_key [] ≡ ok (5 ∷ [], [])
unfolding verify_v4_public body_and_footer signed_message pae pae_pieces to_le_bytes split_dots
    starts_with eqb lit base signer hex_encode hex_decode
signed_token_verifies = refl

verify_v4_public_authentic_example :
    (signature : Bytes) × (starts_with (lit "v4.public.") signed_token ≡ true)
    × (body_and_footer base (split_dots signed_token) ≡ ok ((5 ∷ []) ++ signature, []))
    × (length signature ≡ 64)
    × (signer.verify (lit "Ed25519") signing_key (signed_message (5 ∷ []) [] []) signature ≡ ok tt)
verify_v4_public_authentic_example =
    verify_v4_public_authentic base signer signed_token signing_key [] (5 ∷ []) []
      signed_token_verifies

abbrev draws : Draws
draws = record {
  salt = some (fill 16 3);
  password_nonce = some (fill 24 4);
  ephemeral_key = some (fill 32 5);
  wrap_nonce = some nonce;
}

abbrev full_key : Bytes
full_key = key ++ fill 32 9

full_key_lem : key_for_purpose primitives (name secret) key ≡ ok full_key
unfolding key_for_purpose name is eqb lit primitives ed25519_public_from_seed
full_key_lem = refl

decode_paserk-encode_paserk_wrapped_example :
    (text : Text) × (encode_paserk base primitives
        (λ n. [])
        draws
        (name secret)
        key
        (some (fill 32 6))
        none
        none
      ≡ ok text)
    × (decode_paserk base primitives (λ n. []) text none (some (fill 32 6)) none none ≡ ok full_key)
decode_paserk-encode_paserk_wrapped_example =
    decode_paserk-encode_paserk_wrapped base_laws primitives_laws (λ n. []) draws secret none key
      full_key (fill 32 6) nonce (inl refl) full_key_lem refl refl refl
      (fill-AreBytes 32 2 (omega arith)) (are_bytes-AreBytes full_key refl)

password_accepted : primitives.argon2_params 65536 2 1 ≡ true
unfolding primitives
password_accepted = refl

password_hash : primitives.argon2id 65536 2 1 (1 ∷ 2 ∷ []) (fill 16 3) ≡ ok (fill 32 2)
unfolding primitives
password_hash = refl

decode_paserk-encode_paserk_password_example :
    (text : Text) × (encode_paserk base primitives
        (λ n. [])
        draws
        (name secret)
        key
        none
        (some (1 ∷ 2 ∷ []))
        none
      ≡ ok text)
    × (decode_paserk base primitives (λ n. []) text none none (some (1 ∷ 2 ∷ [])) none
        ≡ ok full_key)
decode_paserk-encode_paserk_password_example =
    decode_paserk-encode_paserk_password primitives_laws password_accepted base_laws (λ n. []) draws
      secret none key full_key (1 ∷ 2 ∷ []) (fill 16 3) (fill 24 4) (fill 32 2) (inl refl)
      full_key_lem (omega arith) refl refl password_hash refl refl
      (fill-AreBytes 16 3 (omega arith)) (fill-AreBytes 24 4 (omega arith))
      (are_bytes-AreBytes full_key refl)

paserk_unwrap_pie-paserk_wrap_pie_example :
    (text : Text) × (paserk_wrap_pie base primitives
        (ok nonce)
        (fill 20 6)
        (1 ∷ 2 ∷ [])
        (name local)
      ≡ ok text)
    × (paserk_unwrap_pie base primitives (fill 20 6) text ≡ ok (1 ∷ 2 ∷ []))
paserk_unwrap_pie-paserk_wrap_pie_example =
    paserk_unwrap_pie-paserk_wrap_pie primitives_laws base_laws local (fill 20 6) (1 ∷ 2 ∷ []) nonce
      (omega arith) refl (fill-AreBytes 32 2 (omega arith)) (are_bytes-AreBytes (1 ∷ 2 ∷ []) refl)

encode_wrapped-paserk_wrap_pie_example :
    encode_wrapped base primitives (λ n. []) draws (name local) key (fill 32 6)
    ≡ paserk_wrap_pie base primitives (ok nonce) (fill 32 6) key (name local)
encode_wrapped-paserk_wrap_pie_example =
    encode_wrapped-paserk_wrap_pie primitives_laws base (λ n. []) draws local (fill 32 6) key nonce
      refl refl
