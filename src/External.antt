-- ===== src/External.antt =====
-- What the program calls and does not implement, the `base64` engines and `serde_json`, and the interface
-- of its signing code, as records of functions. The laws that a theorem relies on are records beside them.
use webtoken.Common.{ℕ, ◌≡◌, true, ◌&&◌, ◌||◌, Bytes, Text, AreBytes, Result, ok, leb, ◌==◌, All}
use webtoken.Errors.{WebtokenError}
use webtoken.Json.{Value}

-- The four engines of the crate `base64` that the program uses.
pub record Base64 : Type 0 where
  pub url_encode : Bytes → Text
  pub url_decode : Text → Result Text Bytes
  pub url_padded_decode : Text → Result Text Bytes
  pub std_encode : Bytes → Text
  pub std_decode : Text → Result Text Bytes
  pub std_unpadded_decode : Text → Result Text Bytes

abbrev pub IsUrlChar : ℕ → Type 0
IsUrlChar c =
    (leb b'A' c && leb c b'Z'
      || (leb b'a' c && leb c b'z' || (leb b'0' c && leb c b'9' || (c == b'-' || c == b'_'))))
    ≡ true

-- URL_SAFE_NO_PAD decodes what it encoded, and writes only the URL-safe alphabet.
pub record Base64Laws (b : Base64) : Type 0 where
  pub url_decode-encode : (bs : Bytes) → AreBytes bs → b.url_decode (b.url_encode bs) ≡ ok bs
  pub url_alphabet : (bs : Bytes) → AreBytes bs → All IsUrlChar (b.url_encode bs)

-- `serde_json::to_vec` and `from_slice` into a `Value`; an error is its text, and `alg_error` the text of
-- the error of `from_value` where the field `alg: String` does not fit.
pub record JsonCodec : Type 0 where
  pub to_vec : Value → Result Text Bytes
  pub from_slice : Bytes → Result Text Value
  pub alg_error : Value → Text

-- The interface of `sign` and `verify` of src/crypto.rs to their callers: algorithm, key, message. The code
-- behind it is `Signing.signer`; the random draws of one signature are part of the function.
pub record Signer : Type 0 where
  pub sign : Text → Bytes → Bytes → Result WebtokenError Bytes
  pub verify : Text → Bytes → Bytes → Bytes → Result WebtokenError (Unit {0})

-- The key `public` accepts every signature that the key `secret` makes.
pub record IsKeyPair (s : Signer) (alg : Text) (secret public : Bytes) : Type 0 where
  pub signs :
      (message : Bytes) → (sig : Bytes) × (s.sign alg secret message ≡ ok sig) × AreBytes sig
  pub accepts :
      (message sig : Bytes)
      → s.sign alg secret message ≡ ok sig
      → s.verify alg public message sig ≡ ok tt
