-- ===== src/Tests/Instances.antt =====
-- Small instances of what the program calls: a base-16 codec, a table of JSON texts, a checksum for a
-- signature and a keystream that flips the lowest bit.
use webtoken.Common.{
  ℕ, zero, suc, ◌+◌, ◌-◌, ◌*◌, ◌/◌, ◌%◌, ◌<◌, ◌≡◌, refl, ap, Bool, true, ◌&&◌, [], ◌∷◌, none, some,
  Bytes, Text, AreBytes, Result, ok, err, panic, guard, ltb, leb, ◌==◌, if◌then◌else◌, length, All,
  lit, eqb, is, eqb_refl, arith,
}
use webtoken.Errors.{invalid_signature}
use webtoken.External.{Base64, Base64Laws, IsUrlChar, JsonCodec, Signer, IsKeyPair}
use webtoken.Primitives.{Primitives, PrimitivesLaws}
use webtoken.Json.{Value, Fields, string, object, end, field}
use webtoken.Jwt.Claims.{Floats}

abbrev pub are_bytes : Bytes → Bool
are_bytes [] = true
are_bytes (b ∷ bs) = ltb b 256 && are_bytes bs

pub are_bytes-AreBytes : (bs : Bytes) → are_bytes bs ≡ true → AreBytes bs
are_bytes-AreBytes [] h = tt
are_bytes-AreBytes (b ∷ bs) h =
    let rest : are_bytes bs ≡ true = ground arith in (ground arith, are_bytes-AreBytes bs rest)

-- Two letters from `a` to `p` for a byte.
unfoldable pub hex_encode : Bytes → Text
hex_encode [] = []
hex_encode (b ∷ bs) = (b'a' + b / 16) ∷ (b'a' + b % 16) ∷ hex_encode bs

abbrev letters : ℕ → ℕ → Bool
letters x y = leb b'a' x && leb x b'p' && (leb b'a' y && leb y b'p')

abbrev byte_before : ℕ → ℕ → Result Text Bytes → Result Text Bytes
byte_before x y (ok bs) =
    if letters x y then ok (((x - b'a') * 16 + (y - b'a')) ∷ bs) else err (lit "bad letter")
byte_before x y (err e) = err e
byte_before x y panic = panic

unfoldable pub hex_decode : Text → Result Text Bytes
hex_decode [] = ok []
hex_decode (x ∷ []) = err (lit "odd length")
hex_decode (x ∷ y ∷ rest) = byte_before x y (hex_decode rest)

unfoldable pub base : Base64
base = record {
  url_encode = hex_encode;
  url_decode = hex_decode;
  url_padded_decode = hex_decode;
  std_encode = hex_encode;
  std_decode = hex_decode;
  std_unpadded_decode = hex_decode;
}

hex_decode-encode : (bs : Bytes) → AreBytes bs → hex_decode (hex_encode bs) ≡ ok bs
unfolding hex_encode hex_decode
hex_decode-encode [] h = refl
hex_decode-encode (b ∷ bs) h = rw (hex_decode-encode bs h.1) (ground (arith, h.0))

hex_alphabet : (bs : Bytes) → AreBytes bs → All IsUrlChar (hex_encode bs)
unfolding hex_encode
hex_alphabet [] h = tt
hex_alphabet (b ∷ bs) h = (ground (arith, h.0), (ground (arith, h.0), hex_alphabet bs h.1))

pub base_laws : Base64Laws base
unfolding base
base_laws = record { url_decode-encode = hex_decode-encode; url_alphabet = hex_alphabet }

abbrev pub header_map : Fields
header_map = field (lit "alg") (string (lit "HS256")) end

abbrev pub header_text : Text
header_text = lit "{\"alg\":\"HS256\"}"

abbrev pub claims_object : Value
claims_object = object (field (lit "sub") (string (lit "me")) end)

abbrev pub claims_text : Text
claims_text = lit "{\"sub\":\"me\"}"

-- The texts of the two objects above.
unfoldable pub json : JsonCodec
json = record {
  to_vec = λ v. ok header_text;
  from_slice = λ t.
      if eqb t header_text
      then ok (object header_map)
      else if eqb t claims_text
      then ok claims_object
      else err (lit "unknown");
  alg_error = λ v. lit "alg";
}

-- A signature is the length of the message, cut to a byte, and the key.
unfoldable pub signer : Signer
signer = record {
  sign = λ alg key message. ok ((length message % 256) ∷ key);
  verify = λ alg key message sig. guard (eqb sig ((length message % 256) ∷ key)) invalid_signature;
}

pub signer_keys : (alg : Text) (key : Bytes) → AreBytes key → IsKeyPair signer alg key key
unfolding signer
signer_keys alg key h = record {
  signs = λ message. ((length message % 256) ∷ key, refl, (omega arith, h));
  accepts = λ message sig e.
      let same : (length message % 256) ∷ key ≡ sig = cc in
      rw (← same) (rw (eqb_refl ((length message % 256) ∷ key)));
}

-- Seconds as natural numbers; the only date text is "0".
unfoldable pub floats : Floats ℕ
floats = record {
  lt = ltb;
  add = λ a b. a + b;
  sub = λ a b. a - b;
  of_u64 = λ n. n;
  as_f64 = λ t. if is t "0" then some 0 else none;
  parse = λ t. none;
  rfc3339 = λ t. none;
}

abbrev pub fill : ℕ → ℕ → Bytes
fill zero b = []
fill (suc n) b = b ∷ fill n b

pub length-fill : (n b : ℕ) → length (fill n b) ≡ n
length-fill zero b = refl
length-fill (suc n) b = ap suc (length-fill n b)

pub fill-AreBytes : (n b : ℕ) → b < 256 → AreBytes (fill n b)
fill-AreBytes zero b h = tt
fill-AreBytes (suc n) b h = (h, fill-AreBytes n b h)

abbrev flip : ℕ → ℕ
flip b = if b % 2 == 0 then b + 1 else b - 1

abbrev flip_all : Bytes → Bytes
flip_all [] = []
flip_all (b ∷ bs) = flip b ∷ flip_all bs

flip_twice : (b : ℕ) → flip (flip b) ≡ b
flip_twice b = ground arith

flip_all_twice : (bs : Bytes) → flip_all (flip_all bs) ≡ bs
flip_all_twice [] = refl
flip_all_twice (b ∷ bs) = rw (flip_twice b) (rw (flip_all_twice bs))

length-flip_all : (bs : Bytes) → length (flip_all bs) ≡ length bs
length-flip_all [] = refl
length-flip_all (b ∷ bs) = ap suc (length-flip_all bs)

flip_all-AreBytes : (bs : Bytes) → AreBytes bs → AreBytes (flip_all bs)
flip_all-AreBytes [] h = tt
flip_all-AreBytes (b ∷ bs) h = (ground (arith, h.0), flip_all-AreBytes bs h.1)

unfoldable pub primitives : Primitives
primitives = record {
  blake2b_hash = λ n m. fill n (length m % 256);
  blake2b_keyed_hash = λ n k m. fill n ((length k + length m) % 256);
  xchacha20 = λ k n d. flip_all d;
  argon2_params = λ m t p. true;
  argon2id = λ m t p pwd salt. ok (fill 32 (length pwd % 256));
  x25519_public = λ k. k;
  x25519_shared = λ a b. some (fill 32 7);
  ed25519_public = λ seed. ok (fill 32 9);
}

pub primitives_laws : PrimitivesLaws primitives
unfolding primitives
primitives_laws = record {
  length-blake2b_hash = λ n m. length-fill n _;
  blake2b_hash-AreBytes = λ n m. fill-AreBytes n _ (omega arith);
  length-blake2b_keyed_hash = λ n k m. length-fill n _;
  blake2b_keyed_hash-AreBytes = λ n k m. fill-AreBytes n _ (omega arith);
  xchacha20_involutive = λ k n d. flip_all_twice d;
  length-xchacha20 = λ k n d. length-flip_all d;
  xchacha20-AreBytes = λ k n d h. flip_all-AreBytes d h;
}
