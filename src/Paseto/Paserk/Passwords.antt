-- ===== src/Paseto/Paserk/Passwords.antt =====
-- `decode_paserk` of src/paseto.rs on the keys that `encode_paserk` encrypts under a password.
use webtoken.Common.{
  ℕ, zero, suc, ◌+◌, ◌-◌, ◌*◌, ◌/◌, ◌%◌, ◌^◌, ◌≤◌, ◌≡◌, refl, true, ◌++◌, Option, none, some, Bytes,
  Text, IsByte, AreBytes, ok, leb, length, take, drop, All-append, lit, eqb_refl, to_be_bytes,
  from_be_bytes, length-to_be_bytes, arith,
}
use webtoken.External.{Base64, Base64Laws}
use webtoken.Primitives.{Primitives, PrimitivesLaws}
use webtoken.Paseto.Parts.{
  length-fields, fields_salt, fields_memory, fields_time, fields_lanes, fields_nonce, fields_key,
  fields_tag,
}
use webtoken.Paseto.Paserk.{
  Draws, key_for_purpose, password_fields, password_ek, password_ak, encode_password,
  encode_checked, encode_paserk,
}
use webtoken.Paseto.Paserk.Reading.{password_body, decode_paserk}
use webtoken.Paseto.Paserk.RoundTrip.{WrapPurpose, name, Expects, decode-password_text, not_public}

-- The fixed costs that encode_paserk writes are read back: 64 MiB as 65536 KiB, 2 passes, 1 lane.
costs_read :
    (from_be_bytes 0 (to_be_bytes 8 (65536 * 1024)) / 1024 % 2 ^ 32 ≡ 65536)
    × (from_be_bytes 0 (to_be_bytes 4 2) ≡ 2)
    × (from_be_bytes 0 (to_be_bytes 4 1) ≡ 1)
unfolding from_be_bytes to_be_bytes
costs_read = (refl, refl, refl)

to_be_bytes-AreBytes : (k n : ℕ) → AreBytes (to_be_bytes k n)
unfolding to_be_bytes
to_be_bytes-AreBytes zero n = tt
to_be_bytes-AreBytes (suc k) n = (omega arith, to_be_bytes-AreBytes k n)

module _ {p : Primitives} (laws : PrimitivesLaws p)
    (accepted : p.argon2_params 65536 2 1 ≡ true) where
  -- The body of a key under a password is decrypted with the password.
  password_body-encrypted :
      (header : Text) (pwd s n k key : Bytes)
      → length s ≡ 16
      → length n ≡ 24
      → 32 ≤ length key
      → p.argon2id 65536 2 1 pwd s ≡ ok k
      → let edk = p.xchacha20 (password_ek p k) n key in
        let body =
          password_fields s
            (to_be_bytes 8 (65536 * 1024))
            (to_be_bytes 4 2)
            (to_be_bytes 4 1)
            n
            edk in
        password_body p header pwd
          (body ++ p.blake2b_keyed_hash 32 (password_ak p k) (header ++ body))
        ≡ ok key
  unfolding password_body password_fields
  password_body-encrypted header pwd s n k key hs hn long derived =
      let mem = to_be_bytes 8 (65536 * 1024) in
      let time = to_be_bytes 4 2 in
      let para = to_be_bytes 4 1 in
      let edk = p.xchacha20 (password_ek p k) n key in
      let body = s ++ (mem ++ (time ++ (para ++ (n ++ edk)))) in
      let t = p.blake2b_keyed_hash 32 (password_ak p k) (header ++ body) in
      let hm = length-to_be_bytes 8 (65536 * 1024) in
      let hi = length-to_be_bytes 4 2 in
      let hp = length-to_be_bytes 4 1 in
      let ht = laws.length-blake2b_keyed_hash 32 (password_ak p k) (header ++ body) in
      let size : length (body ++ t) ≡ 88 + length edk =
        length-fields s mem time para n edk t hs hm hi hp hn ht in
      let key_size : length edk ≡ length key = laws.length-xchacha20 _ n key in
      let enough : leb 120 (length (body ++ t)) ≡ true = ground arith in
      let inner : take ((length (body ++ t) - 32) - 56) (drop 56 (body ++ t)) ≡ edk =
        fields_key s mem time para n edk t hs hm hi hp hn ht _ (omega arith) in
      let last : drop (length (body ++ t) - 32) (body ++ t) ≡ t =
        fields_tag s mem time para n edk t hs hm hi hp hn ht _ (omega arith) in
      let (memory, passes, lanes) = costs_read in
      rw enough (
        rw (fields_salt s mem time para n edk t hs hm hi hp hn ht) (
          rw (fields_memory s mem time para n edk t hs hm hi hp hn ht) (
            rw (fields_time s mem time para n edk t hs hm hi hp hn ht) (
              rw (fields_lanes s mem time para n edk t hs hm hi hp hn ht) (
                rw (fields_nonce s mem time para n edk t hs hm hi hp hn ht) (
                  rw (inner, last)
                    (rw (memory, passes, lanes)
                      (rw accepted (
                        rw derived (
                          rw (eqb_refl t)
                            (rw (laws.xchacha20_involutive (password_ek p k) n key))))))))))))

  body_bytes :
      (header : Text) (s n k key : Bytes)
      → AreBytes s
      → AreBytes n
      → AreBytes key
      → let body =
          password_fields s
            (to_be_bytes 8 (65536 * 1024))
            (to_be_bytes 4 2)
            (to_be_bytes 4 1)
            n
            (p.xchacha20 (password_ek p k) n key) in
        AreBytes (body ++ p.blake2b_keyed_hash 32 (password_ak p k) (header ++ body))
  unfolding password_fields
  body_bytes header s n k key sb nb kb =
      All-append IsByte _ _
        (All-append IsByte s _ sb (
          All-append IsByte _ _ (to_be_bytes-AreBytes 8 (65536 * 1024)) (
            All-append IsByte _ _ (to_be_bytes-AreBytes 4 2) (
              All-append IsByte _ _ (to_be_bytes-AreBytes 4 1)
                (All-append IsByte n _ nb (laws.xchacha20-AreBytes _ n key kb))))))
        (laws.blake2b_keyed_hash-AreBytes 32 _ _)

  -- A key of 32 bytes at least, valid for its purpose "local" or "secret", that `encode_paserk`
  -- encrypts under a password, with a salt of 16 bytes and a nonce of 24 bytes from the generator,
  -- where Argon2 accepts the fixed costs and returns a hash, is read back by `decode_paserk` with
  -- the password, whether the caller expects the purpose or none. The codec and the primitives keep
  -- their laws.
  pub decode_paserk-encode_paserk_password :
      {b64 : Base64} (base : Base64Laws b64) (to_text : ℕ → Text) (draws : Draws) (w : WrapPurpose)
      (expected : Option Text) (key full pwd s n k : Bytes)
      → Expects expected w
      → key_for_purpose p (name w) key ≡ ok full
      → 32 ≤ length full
      → draws.salt ≡ some s
      → draws.password_nonce ≡ some n
      → p.argon2id 65536 2 1 pwd s ≡ ok k
      → length s ≡ 16
      → length n ≡ 24
      → AreBytes s
      → AreBytes n
      → AreBytes full
      → (text : Text) × (encode_paserk b64 p to_text draws (name w) key none (some pwd) none
          ≡ ok text)
        × (decode_paserk b64 p to_text text expected none (some pwd) none ≡ ok full)
  unfolding encode_paserk encode_checked encode_password
  decode_paserk-encode_paserk_password {b64} base to_text draws w expected key full pwd s n k he hk
        long salted nonced derived hs hn sb nb fb =
      let header = lit "k4." ++ name w ++ lit "-pw." in
      let body =
        password_fields s (to_be_bytes 8 (65536 * 1024)) (to_be_bytes 4 2) (to_be_bytes 4 1) n
          (p.xchacha20 (password_ek p k) n full) in
      let t = p.blake2b_keyed_hash 32 (password_ak p k) (header ++ body) in
      (
        header ++ b64.url_encode (body ++ t),
        rw (not_public w) (rw hk (rw salted (rw derived (rw nonced)))),
        rw
            (decode-password_text base laws to_text w expected pwd (body ++ t) he
              (body_bytes header s n k full sb nb fb))
            (password_body-encrypted header pwd s n k full hs hn long derived),
      )
