-- ===== src/Der/Oids.antt =====
-- The object identifiers of src/crypto_parsing.rs, with their tags and lengths, and oid_to_curve_info.
use webtoken.Common.{ℕ, Option, none, some, [], ◌∷◌, Bytes, Text, drop, eqb, lit, if◌then◌else◌}

abbrev pub oid_ec_public_key : Bytes
oid_ec_public_key = 0x06 ∷ 0x07 ∷ 0x2A ∷ 0x86 ∷ 0x48 ∷ 0xCE ∷ 0x3D ∷ 0x02 ∷ 0x01 ∷ []

abbrev pub oid_p192 : Bytes
oid_p192 = 0x06 ∷ 0x07 ∷ 0x2a ∷ 0x86 ∷ 0x48 ∷ 0xce ∷ 0x3d ∷ 0x03 ∷ 0x01 ∷ 0x01 ∷ []

abbrev pub oid_p256 : Bytes
oid_p256 = 0x06 ∷ 0x08 ∷ 0x2A ∷ 0x86 ∷ 0x48 ∷ 0xCE ∷ 0x3D ∷ 0x03 ∷ 0x01 ∷ 0x07 ∷ []

abbrev pub oid_p384 : Bytes
oid_p384 = 0x06 ∷ 0x05 ∷ 0x2B ∷ 0x81 ∷ 0x04 ∷ 0x00 ∷ 0x22 ∷ []

abbrev pub oid_p521 : Bytes
oid_p521 = 0x06 ∷ 0x05 ∷ 0x2B ∷ 0x81 ∷ 0x04 ∷ 0x00 ∷ 0x23 ∷ []

abbrev pub oid_secp256k1 : Bytes
oid_secp256k1 = 0x06 ∷ 0x05 ∷ 0x2B ∷ 0x81 ∷ 0x04 ∷ 0x00 ∷ 0x0A ∷ []

-- Without tag and length, unlike the others.
abbrev pub oid_rsa_encryption : Bytes
oid_rsa_encryption = 0x2a ∷ 0x86 ∷ 0x48 ∷ 0x86 ∷ 0xf7 ∷ 0x0d ∷ 0x01 ∷ 0x01 ∷ 0x01 ∷ []

-- oid_to_curve_info
unfoldable pub oid_to_curve_info : Bytes → Option (Text × ℕ)
oid_to_curve_info oid =
    if eqb oid (drop 2 oid_p256)
    then some (lit "P-256", 32)
    else if eqb oid (drop 2 oid_p384)
    then some (lit "P-384", 48)
    else if eqb oid (drop 2 oid_p521)
    then some (lit "P-521", 66)
    else if eqb oid (drop 2 oid_secp256k1)
    then some (lit "secp256k1", 32)
    else if eqb oid (drop 2 oid_p192)
    then some (lit "P-192", 24)
    else none
