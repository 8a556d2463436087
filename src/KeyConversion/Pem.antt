-- ===== src/KeyConversion/Pem.antt =====
-- pem_to_jwk of src/key_utils.rs.
use webtoken.Common.{
  ℕ, zero, suc, ◌+◌, ◌-◌, Bool, ◌||◌, List, [], ◌∷◌, ◌++◌, Option, none, some, Bytes, Text, Result,
  ok, err, panic, ◌>>=◌, ◌>>◌, guard, ok_or, map_err, ltb, ◌==◌, if◌then◌else◌, take, drop, lit,
  starts_with,
}
use webtoken.External.{Base64}
use webtoken.Primitives.{Primitives}
use webtoken.Json.{Value}
use webtoken.Unicode.{is_utf8, trim, lines, contains_text}
use webtoken.Unicode.Words.{without_spaces, find}
use webtoken.Ssh.{ssh_to_pem}
use webtoken.KeyConversion.{
  parse_rsa_private, parse_rsa_public, parse_okp_public, parse_okp_private,
}
use webtoken.KeyConversion.Ec.{parse_ec_public, parse_ec_private}

-- The map of the URL-safe characters to those of the standard alphabet.
unfoldable pub standard_chars : Text → Text
standard_chars [] = []
standard_chars (c ∷ cs) =
    (if c == b'-' then b'+' else if c == b'_' then b'/' else c) ∷ standard_chars cs

-- `base64_data` of the lines of the body; a line with a colon is left out.
unfoldable pub base64_data : List Text → Text
base64_data [] = []
base64_data (l ∷ ls) =
    let rest = base64_data ls in
    if contains_text (lit ":") l then rest else standard_chars (without_spaces (trim l)) ++ rest

abbrev found_or : Option ℕ → ℕ → ℕ
found_or none n = n
found_or (some i) n = i

abbrev eol_end : ℕ → Option ℕ → ℕ
eol_end start_idx none = start_idx
eol_end start_idx (some eol) = start_idx + eol + 1

-- The lines between the header and the footer.
unfoldable pub pem_body_lines : Text → Result Text (List Text)
pem_body_lines s = do
  start_idx ← ok_or (find (lit "-----BEGIN") s) (lit "Missing Header")
  end_idx ← ok_or (find (lit "-----END") s) (lit "Missing Footer")
  let body_start = eol_end start_idx (find (b'\n' ∷ []) (drop start_idx s))
  guard (ltb body_start end_idx) (lit "Empty PEM body")
  ok (lines (take (end_idx - body_start) (drop body_start s)))

-- `if let Ok(j) = first { return Ok(j.to_string()); }` before the rest.
abbrev or_next : (Value → Text) → Result Text Value → Result Text Text → Result Text Text
or_next to_string (ok j) next = ok (to_string j)
or_next to_string (err e) next = next
or_next to_string panic next = panic

module _ (b64 : Base64) (prims : Primitives) (debug_lossy : Bytes → Text)
    (to_string : Value → Text) where
  unfoldable pub public_jwk : Bytes → Result Text Text → Result Text Text
  public_jwk der next = or_next to_string (parse_rsa_public b64 der) (
      or_next to_string (parse_ec_public b64 der)
        (or_next to_string (parse_okp_public b64 der) next))

  unfoldable pub private_jwk_of : Bytes → Result Text Text → Result Text Text
  private_jwk_of der next = or_next to_string (parse_rsa_private b64 der) (
      or_next to_string (parse_ec_private b64 der)
        (or_next to_string (parse_okp_private b64 prims der) next))

  -- The attempts that the labels in the text allow.
  unfoldable pub der_jwk : Text → Bytes → Result Text Text
  der_jwk s der =
      let unknown = err (lit "Unknown Key Format") in
      let private_arm =
        (if contains_text (lit "BEGIN RSA PRIVATE KEY") s
            || (contains_text (lit "BEGIN PRIVATE KEY") s
                || contains_text (lit "BEGIN EC PRIVATE KEY") s)
          then private_jwk_of der unknown
          else unknown) in
      if contains_text (lit "BEGIN PUBLIC KEY") s || contains_text (lit "BEGIN RSA PUBLIC KEY") s
      then public_jwk der private_arm
      else private_arm

  -- The part for PEM, behind the test for SSH.
  unfoldable pub armoured_jwk : Text → Result Text Text
  armoured_jwk s = do
    body ← pem_body_lines s
    der ← map_err (λ e. lit "Invalid PEM Base64: " ++ e) (b64.std_decode (base64_data body))
    der_jwk s der

  abbrev is_ssh : Text → Bool
  is_ssh s_trim = starts_with (lit "ssh-") s_trim || starts_with (lit "ecdsa-") s_trim

  -- The calls of pem_to_jwk: an SSH key is made PEM, and that is read by the call within.
  unfoldable pub pem_to_jwk_calls : ℕ → Bytes → Result Text Text
  pem_to_jwk_calls zero pem_bytes = panic
  pem_to_jwk_calls (suc fuel) pem_bytes =
      let again = pem_to_jwk_calls fuel in
      guard (is_utf8 pem_bytes) (lit "Invalid UTF-8")
      >> (if is_ssh (trim pem_bytes)
          then ssh_to_pem b64 debug_lossy (trim pem_bytes) >>= again
          else armoured_jwk pem_bytes)

  -- pem_to_jwk
  unfoldable pub pem_to_jwk : Bytes → Result Text Text
  pem_to_jwk pem_bytes = pem_to_jwk_calls 2 pem_bytes
