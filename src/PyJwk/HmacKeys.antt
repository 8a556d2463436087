-- ===== src/PyJwk/HmacKeys.antt =====
-- get_key_bytes of src/lib.rs for the algorithms with a shared secret.
use webtoken.Common.{
  ℕ, ◌≤◌, ◌≡◌, refl, ap, ◌∙◌, ◌⊎◌, inl, inr, Bool, true, false, not, ◌&&◌, ◌||◌, ◌++◌, Option,
  Bytes, Text, Result, ok, err, panic, ◌>>◌, guard, leb, if◌then◌else◌, length, lit, eqb, is,
  starts_with, starts_with-append, arith,
}
use webtoken.Unicode.{is_utf8, trim}
use webtoken.Signing.{Hash, sha256, sha384, sha512}
use webtoken.Signing.Hmac.{hmac_name}
use webtoken.External.{Base64}
use webtoken.BigNumbers.{BigNumbers}
use webtoken.Algorithms.{is_supported_algorithm}
use webtoken.Jws.{eq_ignore_ascii_case}
use webtoken.Ssh.{ssh_to_pem}
use webtoken.PyJwk.{PyError}
use webtoken.PyJwk.KeyChoice.{
  Key, jwk_key, text_key, bytes_key, byte_list_key, other_key, key_slice,
  bytes_look_like_public_key, is_ssh_text, is_hmac, min_len, least, checked_key, or_checked,
  plain_key_bytes, other_key_bytes, get_key_bytes,
}

guards-eq-ok :
    (supported hmac public long : Bool) (e f g : PyError) (key : Bytes) {out : Bytes}
    → (guard supported e
        >> (guard (not (hmac && public)) f >> (guard (not hmac || long) g >> ok key)))
      ≡ ok out
    → hmac ≡ true
    → (out ≡ key) × (public ≡ false) × (long ≡ true)
guards-eq-ok true true false true e f g key h t = (cc, refl, refl)
guards-eq-ok true true true long e f g key h t = cc
guards-eq-ok true true false false e f g key h t = cc
guards-eq-ok true false public long e f g key h t = cc
guards-eq-ok false hmac public long e f g key h t = cc

or_checked-eq-ok :
    (pem : Result Text Text) (rest : Result PyError Bytes) {out : Bytes}
    → or_checked pem rest ≡ ok out
    → (rest ≡ ok out) ⊎ (pem ≡ ok out)
or_checked-eq-ok (ok pem) rest h = inr cc
or_checked-eq-ok (err e) rest h = inl h
or_checked-eq-ok panic rest h = cc

ssh_branch-eq-ok :
    (ssh : Bool) (pem : Result Text Text) (rest : Result PyError Bytes) {out : Bytes}
    → (if ssh then or_checked pem rest else rest) ≡ ok out
    → (rest ≡ ok out) ⊎ ((ssh ≡ true) × (pem ≡ ok out))
ssh_branch-eq-ok false pem rest h = inl h
ssh_branch-eq-ok true pem rest h = elim (or_checked-eq-ok pem rest h) [
  | inl e ↦ inl e
  | inr e ↦ inr (refl, e)
]

-- The bytes of a tag, which are the least length of a secret.
abbrev pub hash_len : Hash → ℕ
hash_len sha256 = 32
hash_len sha384 = 48
hash_len sha512 = 64

-- A UTF-8 text that begins, behind white space, like PEM or like a public key of SSH.
abbrev pub IsKeyText : Bytes → Type 0
IsKeyText key =
    (is_utf8 key ≡ true)
    × (rest : Text) × ((trim key ≡ lit "-----BEGIN" ++ rest)
        ⊎ ((trim key ≡ lit "ssh-" ++ rest) ⊎ (trim key ≡ lit "ecdsa-" ++ rest)))

begins : (prefix text rest : Text) → text ≡ prefix ++ rest → starts_with prefix text ≡ true
begins prefix text rest e = ap (starts_with prefix) e ∙ starts_with-append prefix rest

key_text-looks : (key : Bytes) → IsKeyText key → bytes_look_like_public_key key ≡ true
unfolding bytes_look_like_public_key
key_text-looks key (utf8, rest, inl e) =
    let found = begins (lit "-----BEGIN") (trim key) rest e in ground arith
key_text-looks key (utf8, rest, inr (inl e)) =
    let found = begins (lit "ssh-") (trim key) rest e in ground arith
key_text-looks key (utf8, rest, inr (inr e)) =
    let found = begins (lit "ecdsa-") (trim key) rest e in ground arith

-- A key that passed the checks as a secret.
abbrev pub IsSecret : Hash → Bool → Bytes → Bytes → Type 0
IsSecret h check_length key out =
    (out ≡ key) × ¬ IsKeyText key × ((if check_length then hash_len h else 0) ≤ length key)

module _ (to_uppercase : Text → Text) (shown : ℕ → Text) where
  name_hmac :
      (h : Hash) (alg_name : Text)
      → to_uppercase alg_name ≡ hmac_name h
      → is_hmac to_uppercase shown alg_name ≡ true
  unfolding is_hmac is eqb lit
  name_hmac sha256 alg_name e = rw e
  name_hmac sha384 alg_name e = rw e
  name_hmac sha512 alg_name e = rw e

  name-least :
      (h : Hash) (alg_name : Text) (check_length : Bool)
      → to_uppercase alg_name ≡ hmac_name h
      → least to_uppercase shown alg_name check_length ≡ (if check_length then hash_len h else 0)
  unfolding min_len is eqb lit
  name-least h alg_name false e = refl
  name-least sha256 alg_name true e = rw e
  name-least sha384 alg_name true e = rw e
  name-least sha512 alg_name true e = rw e

  checked_key-IsSecret :
      (h : Hash) (alg_name : Text) (check_length : Bool) (key : Bytes) {out : Bytes}
      → to_uppercase alg_name ≡ hmac_name h
      → checked_key to_uppercase shown alg_name check_length key ≡ ok out
      → IsSecret h check_length key out
  unfolding checked_key
  checked_key-IsSecret h alg_name check_length key named run =
      let (same, plain, long) =
        guards-eq-ok (is_supported_algorithm alg_name) (is_hmac to_uppercase shown alg_name)
          (bytes_look_like_public_key key)
          (leb (least to_uppercase shown alg_name check_length) (length key)) _ _ _ key run
          (name_hmac h alg_name named) in
      let enough : least to_uppercase shown alg_name check_length ≤ length key = ground arith in
      (
        same,
        λ text. let looks = key_text-looks key text in ground arith,
        rw (name-least h alg_name check_length named) at enough,
      )

  module _ (b64 : Base64) (big : BigNumbers) (fill : ℕ → ℕ → ℕ → Option Bytes)
      (debug_lossy : Bytes → Text) where
    plain_key_bytes-eq-ok :
        (h : Hash) (alg_name : Text) (check_length : Bool) (key : Bytes) {out : Bytes}
        → to_uppercase alg_name ≡ hmac_name h
        → plain_key_bytes to_uppercase shown b64 big fill debug_lossy alg_name check_length key
          ≡ ok out
        → IsSecret h check_length key out
          ⊎ ((is_ssh_text key ≡ true) × (ssh_to_pem b64 debug_lossy key ≡ ok out))
    unfolding plain_key_bytes
    plain_key_bytes-eq-ok h alg_name check_length key named run =
        elim (ssh_branch-eq-ok (is_ssh_text key) (ssh_to_pem b64 debug_lossy key)
          (checked_key to_uppercase shown alg_name check_length key) run) [
            | inl e ↦ inl (checked_key-IsSecret h alg_name check_length key named e)
            | inr e ↦ inr e
          ]

    other_key_bytes-eq-ok :
        (key : Key) (alg_name : Text) (check_length : Bool) (slice : Bytes) {out : Bytes}
        → key_slice key ≡ ok slice
        → eq_ignore_ascii_case alg_name (lit "none") ≡ false
        → other_key_bytes to_uppercase shown b64 big fill debug_lossy key alg_name check_length
          ≡ ok out
        → plain_key_bytes to_uppercase shown b64 big fill debug_lossy alg_name check_length slice
          ≡ ok out
    unfolding other_key_bytes
    other_key_bytes-eq-ok key alg_name check_length slice plain named h = cc

    -- Where the upper case of the name is HS256, HS384 or HS512 and the name is not "none", the key bytes that
    -- are given for a str or bytes object are the object's own bytes, which are no UTF-8 text that begins
    -- like PEM or SSH, and are 32, 48 or 64 at least where the length is checked; or the object is an SSH
    -- text and they are its PEM form.
    pub get_key_bytes_hmac :
        (h : Hash) (key : Key) (alg_name : Text) (is_signing check_length : Bool) (slice : Bytes)
        {out : Bytes}
        → key_slice key ≡ ok slice
        → eq_ignore_ascii_case alg_name (lit "none") ≡ false
        → to_uppercase alg_name ≡ hmac_name h
        → get_key_bytes to_uppercase shown b64 big fill debug_lossy key alg_name is_signing
            check_length
          ≡ ok out
        → IsSecret h check_length slice out
          ⊎ ((is_ssh_text slice ≡ true) × (ssh_to_pem b64 debug_lossy slice ≡ ok out))
    unfolding get_key_bytes key_slice
    get_key_bytes_hmac h (jwk_key jwk) alg_name is_signing check_length slice plain spelled named
          run =
        cc
    get_key_bytes_hmac h other_key alg_name is_signing check_length slice plain spelled named run =
        cc
    get_key_bytes_hmac h (byte_list_key b) alg_name is_signing check_length slice plain spelled
          named run =
        cc
    get_key_bytes_hmac h (text_key s) alg_name is_signing check_length slice plain spelled named
          run =
        plain_key_bytes-eq-ok h alg_name check_length slice named
          (other_key_bytes-eq-ok (text_key s) alg_name check_length slice plain spelled run)
    get_key_bytes_hmac h (bytes_key s) alg_name is_signing check_length slice plain spelled named
          run =
        plain_key_bytes-eq-ok h alg_name check_length slice named
          (other_key_bytes-eq-ok (bytes_key s) alg_name check_length slice plain spelled run)
