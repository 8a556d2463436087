-- ===== src/PyUtils.antt =====
-- src/py_utils.rs: `decode_base64_permissive`.
use webtoken.Common.{
  ℕ, ◌≡◌, refl, ◌≢◌, Bool, ◌||◌, [], ◌∷◌, Bytes, Text, AreBytes, Result, ok, err, panic, ◌==◌,
  if◌then◌else◌, All, lit, NoDot, arith,
}
use webtoken.External.{Base64, Base64Laws, IsUrlChar}

-- u8::is_ascii_whitespace
abbrev pub is_whitespace : ℕ → Bool
is_whitespace c = c == 0x20 || (c == 0x09 || (c == 0x0A || (c == 0x0C || c == 0x0D)))

unfoldable pub without_whitespace : Bytes → Bytes
without_whitespace [] = []
without_whitespace (c ∷ cs) =
    let rest = without_whitespace cs in if is_whitespace c then rest else c ∷ rest

-- `if let Ok(v) = first { return Ok(v); }` before the rest.
abbrev or_else : Result Text Bytes → Result Text Bytes → Result Text Bytes
or_else (ok v) other = ok v
or_else (err e) other = other
or_else panic other = panic

-- decode_base64_permissive
unfoldable pub decode_base64_permissive : Base64 → Bytes → Result Text Bytes
decode_base64_permissive b input =
    let clean = without_whitespace input in
    or_else (b.url_decode clean) (
      or_else (b.url_padded_decode clean) (
        or_else (b.std_decode clean) (
          or_else (b.std_unpadded_decode clean)
            (err (lit "Base64 error: Invalid padding or alphabet")))))

url_char-NoDot : (c : ℕ) → IsUrlChar c → c ≢ b'.'
url_char-NoDot c h e = ground arith

-- A URL-safe text has no dot and no whitespace.
pub url_text-NoDot : (s : Text) → All IsUrlChar s → NoDot s
url_text-NoDot [] h = tt
url_text-NoDot (c ∷ cs) h = (url_char-NoDot c h.0, url_text-NoDot cs h.1)

without_whitespace-url_text : (s : Text) → All IsUrlChar s → without_whitespace s ≡ s
unfolding without_whitespace
without_whitespace-url_text [] h = refl
without_whitespace-url_text (c ∷ cs) h = ground (arith, without_whitespace-url_text cs h.1)

-- The permissive decoder reads back what URL_SAFE_NO_PAD wrote for bytes, where that engine keeps
-- its laws.
pub decode_base64_permissive-url_encode :
    {b : Base64}
    → Base64Laws b
    → (bs : Bytes) → AreBytes bs
    → decode_base64_permissive b (b.url_encode bs) ≡ ok bs
unfolding decode_base64_permissive
decode_base64_permissive-url_encode {b} laws bs h =
    rw (without_whitespace-url_text (b.url_encode bs) (laws.url_alphabet bs h))
      (rw (laws.url_decode-encode bs h))

without_whitespace_idem :
    (s : Bytes) → without_whitespace (without_whitespace s) ≡ without_whitespace s
unfolding without_whitespace
without_whitespace_idem [] = refl
without_whitespace_idem (c ∷ cs) = ground (arith, without_whitespace_idem cs)

-- Whitespace anywhere in the input makes no difference.
pub decode_base64_permissive_ignores_whitespace :
    (b : Base64) (input : Bytes)
    → decode_base64_permissive b (without_whitespace input) ≡ decode_base64_permissive b input
unfolding decode_base64_permissive
decode_base64_permissive_ignores_whitespace b input = rw (without_whitespace_idem input)
