-- ===== src/Domain/SemanticMemory/Laws.antt =====
-- The message whose digest names a point in crates/ocr-domain/src/semantic_memory.rs.
use mathlib.Core.Path.{ap₂}
use document_intelligence.Base.{ℕ, ◌/◌, ◌%◌, ◌<◌, ◌≡◌, refl, List, [], ◌∷◌, ◌++◌, arith, length}
use document_intelligence.Base.Text.{Str, codes, bytes, len}
use document_intelligence.Domain.Ids.{
  TenantId, MemoryRecordId, MemoryRecordVersion, EmbeddingVersion,
}
use document_intelligence.Domain.SemanticMemory.{to_be_bytes, message}

to_be_bytes-injective :
    (m n : ℕ) (xs ys : List ℕ)
    → m < 18446744073709551616
    → n < 18446744073709551616
    → to_be_bytes m ++ xs ≡ to_be_bytes n ++ ys
    → (m ≡ n) × (xs ≡ ys)
to_be_bytes-injective m n xs ys h k e =
    let b0 : m / 72057594037927936 % 256 ≡ n / 72057594037927936 % 256 = cc in
    let b1 : m / 281474976710656 % 256 ≡ n / 281474976710656 % 256 = cc in
    let b2 : m / 1099511627776 % 256 ≡ n / 1099511627776 % 256 = cc in
    let b3 : m / 4294967296 % 256 ≡ n / 4294967296 % 256 = cc in
    let b4 : m / 16777216 % 256 ≡ n / 16777216 % 256 = cc in
    let b5 : m / 65536 % 256 ≡ n / 65536 % 256 = cc in
    let b6 : m / 256 % 256 ≡ n / 256 % 256 = cc in
    let b7 : m % 256 ≡ n % 256 = cc in (omega (arith, b0, b1, b2, b3, b4, b5, b6, b7), cc)

append-injective :
    (xs ys us vs : List ℕ) → length xs ≡ length ys → xs ++ us ≡ ys ++ vs → (xs ≡ ys) × (us ≡ vs)
append-injective [] [] us vs h e = (refl, e)
append-injective [] (y ∷ ys) us vs h e = absurd (omega (arith, h))
append-injective (x ∷ xs) [] us vs h e = absurd (omega (arith, h))
append-injective (x ∷ xs) (y ∷ ys) us vs h e =
    let tail = append-injective xs ys us vs (omega (arith, h)) (cc) in
    let head : x ≡ y = cc in (ap₂ (λ a l. a ∷ l) head tail.0, tail.1)

frame-injective :
    (v w : Str) (xs ys : List ℕ)
    → len v < 18446744073709551616
    → len w < 18446744073709551616
    → to_be_bytes (len v) ++ (bytes v ++ xs) ≡ to_be_bytes (len w) ++ (bytes w ++ ys)
    → (bytes v ≡ bytes w) × (xs ≡ ys)
unfolding len
frame-injective v w xs ys h k e =
    let (same, rest) =
      to_be_bytes-injective (len v) (len w) (bytes v ++ xs) (bytes w ++ ys) h k e in
    append-injective (bytes v) (bytes w) xs ys same rest

-- The texts fit the eight bytes of their lengths.
abbrev pub IsFramable : TenantId → MemoryRecordId → MemoryRecordVersion → EmbeddingVersion → Type 0
IsFramable t r v e =
    (len t.text < 18446744073709551616)
    × (len r.text < 18446744073709551616)
    × (len v.text < 18446744073709551616)
    × (len e.text < 18446744073709551616)

-- The message that names a point determines the bytes of the tenant, the record, its version and
-- the embedding version: no two points share a message, wherever one text ends and the next begins.
pub message-injective :
    (t t' : TenantId) (r r' : MemoryRecordId) (v v' : MemoryRecordVersion) (e e' : EmbeddingVersion)
    → IsFramable t r v e
    → IsFramable t' r' v' e'
    → message t r v e ≡ message t' r' v' e'
    → (bytes t.text ≡ bytes t'.text)
      × (bytes r.text ≡ bytes r'.text)
      × (bytes v.text ≡ bytes v'.text)
      × (bytes e.text ≡ bytes e'.text)
unfolding message
message-injective t t' r r' v v' e e' (a, b, c, d) (a', b', c', d') h =
    let (_, h₀) =
      append-injective (codes "ocr-memory-point-v1") (codes "ocr-memory-point-v1") _ _ refl h in
    let (p, h₁) = frame-injective t.text t'.text _ _ a a' h₀ in
    let (q, h₂) = frame-injective r.text r'.text _ _ b b' h₁ in
    let (s, h₃) = frame-injective v.text v'.text _ _ c c' h₂ in
    let (u, _) = frame-injective e.text e'.text _ _ d d' h₃ in (p, q, s, u)
