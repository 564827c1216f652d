-- ===== src/Service/Digest.antt =====
-- crates/ocr-service/src/digest.rs: the notation of a digest in hexadecimal. SHA-256 is a parameter
-- where it is used.
use document_intelligence.Base.{ℕ, ◌+◌, ◌-◌, ◌/◌, ◌%◌, List, [], ◌∷◌, ◌++◌, if◌then◌else◌, ltb}
use document_intelligence.Base.Text.{Str, codes}

-- `HEX_DIGITS[nibble]`
abbrev pub hex_digit : ℕ → ℕ
hex_digit n = if ltb n 10 then b'0' + n else b'a' + (n - 10)

unfoldable pub hex_encode : List ℕ → Str
hex_encode [] = []
hex_encode (byte ∷ bytes) = hex_digit (byte / 16) ∷ hex_digit (byte % 16) ∷ hex_encode bytes

unfoldable pub sha256_digest : (List ℕ → List ℕ) → List ℕ → Str
unfolding hex_encode
sha256_digest sha256 value = codes "sha256:" ++ hex_encode (sha256 value)
