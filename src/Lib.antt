-- ===== src/Lib.antt =====
-- Models and proofs for webtoken, a library of JSON Web Tokens, PASETO tokens and key formats.
--
-- The program's parts and where they are modelled. Paths are those of the repository.
--
--   src/jwt.rs            decode with parse_jws and verify_signature: Jwt; the claim checks: Jwt/Claims;
--                         prepare_headers and sort_map: Jwt/Headers
--   src/jws.rs            the compact form of a signed token: Jws
--   src/lib.rs            the error type: Errors; sign: Api; get_key_bytes, raw_sign and raw_verify: PyJwk/KeyChoice;
--                         decode_complete and prepare_validation: Bindings
--   src/py_utils.rs       decode_base64_permissive: PyUtils
--   src/algorithms.rs     Algorithms
--   src/crypto.rs         sign and verify: Signing; paseto_v4_encrypt and paseto_v4_decrypt: Paseto; the
--                         functions on X25519 and Ed25519 keys: KeyBytes; the ciphers of JWE:
--                         Jwe/Ciphers; concat_kdf_sha256 and PBKDF2: Jwe/Derivation; hkdf_sha256: Hkdf;
--                         recover_primes, compute_crt and what they call: RsaMath
--   src/crypto_parsing.rs the DER builders and DerReader: Der; oid_to_curve_info and the constants: Der/Oids;
--                         PEM and the key wrappers: KeyBytes; ssh_to_pem: Ssh; certificates: X509, their names
--                         X509/Name, their times X509/Time, their metadata X509/Metadata
--   src/jwk.rs            normalize, deduce_algorithm and normalize_key_set: Jwk; extract_key_bytes:
--                         Jwk/Extract, with its RSA keys in Jwk/Rsa and its EC keys in Jwk/Ec
--   src/key_utils.rs      the numbers of RSA keys: Jwk/Rsa; the DER parsers: KeyConversion and
--                         KeyConversion/Ec; pem_to_jwk: KeyConversion/Pem
--   src/pyjwt_jwk_api.rs  PyJWK and PyJWKSet: PyJwk; public_key: PyJwk/Public and
--                         PyJwk/Public/Extraction; the checks on keys: PyJwk/KeyChecks
--   src/paseto.rs         pae: Paseto and Paseto/Pae; v4.local: Paseto/Local; v4.public: Paseto/Public;
--                         encode_paserk and decode_paserk: Paseto/Paserk; paserk_wrap_pie and the other
--                         wrapping functions: Paseto/Wrapping; decode_paserk_key, and the four functions
--                         on tokens with the reading of the key: Paseto/KeyTexts
--   src/jwe.rs            encrypt_compact and decrypt_compact: Jwe; encrypt_content and decrypt_content:
--                         Jwe/Content; manage_cek_encrypt and manage_cek_decrypt: Jwe/KeyManagement
--
-- Common holds bytes, texts, Result and the lemmas on lists and numbers; Json the values of serde_json,
-- with a map as the list of its entries in order; Unicode what is used of str. Tests runs the theorems at
-- concrete inputs.
--
-- How the parts meet: sign prepares the header, writes header and payload in base64 and signs the text
-- `header.payload`; decode splits the text, reads the header, checks the signature over the first two
-- parts and then the claims. The PASETO functions put the pieces of a token under one encoding, pae, and
-- authenticate that. A JWE token is a header, a key that the key management has encrypted, and the nonce,
-- ciphertext and tag of its content, with the text of the header as additional data. All read keys with
-- KeyBytes, and DER with Der.
--
-- A byte is a natural number, a text is its UTF-8 bytes, and a function that can fail returns Result,
-- whose third case stands for a panic. What is not in the repository is a parameter: the base64 engines
-- and serde_json (External), the primitives of blake2b_simd, chacha20, argon2 and graviola (Primitives),
-- the signature schemes (Signing.Schemes), the ciphers of JWE (Jwe.Ciphers), the compression of flate2, f64
-- (Jwt.Claims.Floats), the numbers of num-bigint (BigNumbers) and what pyo3 reads from an option
-- (Bindings.Conversions). Laws that a theorem needs are
-- records beside them. Random bytes are arguments. An integer that can leave its range keeps the
-- wrap-around of a release build.
--
-- Fuel bounds these loops, and each round makes progress by one at least: chunk_lines, with the number of
-- characters; kdf_rounds, pbkdf2_blocks and hkdf_rounds, with the number of bytes asked for; the loops over
-- DER in KeyConversion and X509, with the number of bytes, of which each reading takes one; halve, with the
-- number that it halves, which has no end on zero, and is a panic there. pem_to_jwk calls itself once, on the
-- PEM that ssh_to_pem writes.
--
-- Not modelled: the conversion of Python objects, the registry of algorithms and the preparation of claims in
-- src/lib.rs, key generation and the writing of certificates, which call libraries, and in
-- src/pyjwt_jwk_api.rs the classes of key numbers and what looks at attributes of Python objects.
pub mod PyJwk
pub mod Bindings
pub mod BigNumbers
pub mod RsaMath
pub mod Jwk
pub mod KeyConversion
pub mod Ssh
pub mod X509
pub mod Hkdf
pub mod Common
pub mod Errors
pub mod Json
pub mod External
pub mod PyUtils
pub mod Algorithms
pub mod Jws
pub mod Jwt
pub mod Api
pub mod Der
pub mod Unicode
pub mod Primitives
pub mod KeyBytes
pub mod Signing
pub mod Paseto
pub mod Jwe
pub mod Tests
