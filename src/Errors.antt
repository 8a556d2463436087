-- ===== src/Errors.antt =====
-- `WebtokenError` of src/lib.rs; a message is its text.
use webtoken.Common.{Text, ◌++◌, lit}

pub data WebtokenError : Type 0 where
  generic : Text → WebtokenError
  invalid_signature expired_signature immature_signature : WebtokenError
  invalid_issuer invalid_audience invalid_algorithm invalid_token : Text → WebtokenError
  missing_required_claim decode_error invalid_key invalid_subject : Text → WebtokenError
  invalid_jti invalid_issued_at unsupported_algorithm unsupported_encryption : Text → WebtokenError

-- The text of an error, by its `Display`.
unfoldable pub display : WebtokenError → Text
display (generic s) = s
display invalid_signature = lit "Signature verification failed"
display expired_signature = lit "Signature has expired"
display immature_signature = lit "The token is not yet valid"
display (invalid_issuer msg) = lit "InvalidIssuer: " ++ msg
display (invalid_audience msg) = lit "InvalidAudience: " ++ msg
display (invalid_algorithm msg) = lit "Algorithm not supported: " ++ msg
display (invalid_token msg) = lit "InvalidTokenError: " ++ msg
display (missing_required_claim msg) = lit "Missing required claim: " ++ msg
display (decode_error msg) = lit "DecodeError: " ++ msg
display (invalid_key msg) = lit "InvalidKeyError: " ++ msg
display (invalid_subject msg) = lit "InvalidSubjectError: " ++ msg
display (invalid_jti msg) = lit "InvalidJTIError: " ++ msg
display (invalid_issued_at msg) = lit "InvalidIssuedAtError: " ++ msg
display (unsupported_algorithm msg) = lit "UnsupportedAlgorithmError: " ++ msg
display (unsupported_encryption msg) = lit "UnsupportedEncryptionError: " ++ msg
