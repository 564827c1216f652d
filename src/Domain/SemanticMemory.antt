-- ===== src/Domain/SemanticMemory.antt =====
-- crates/ocr-domain/src/semantic_memory.rs: collections, query scopes, and the points of the vector
-- index. The SHA-256 digest and the notation of a UUID are parameters.
pub mod Laws
pub mod Tests
use document_intelligence.Base.{
  ℕ, zero, suc, ◌+◌, ◌/◌, ◌%◌, Bool, true, false, ◌&&◌, ◌||◌, not, List, [], ◌∷◌, ◌++◌, Option,
  none, some, if◌then◌else◌, leb, ◌==◌, within, any, length, get_elem?, set, Result, ok, err,
}
use document_intelligence.Base.Text.{Str, codes, bytes, len, str_eq}
use document_intelligence.Base.Text.Decimal.{decimal}
use document_intelligence.Domain.Errors.{
  Error, invalid_semantic_collection, invalid_semantic_query_scope, invalid_vector_point_metadata,
}
use document_intelligence.Domain.Ids.{
  TenantId, MemoryRecordId, MemoryRecordVersion, EmbeddingVersion, DocumentId, DocumentVersion,
  ChunkId, ObservationId,
}

pub record SemanticCollection : Type 0 where
  pub schema_major : ℕ
  pub embedding_major : ℕ

unfoldable pub new_semantic_collection : ℕ → ℕ → Result Error SemanticCollection
new_semantic_collection schema_major embedding_major =
    if schema_major == 0 || embedding_major == 0
    then err invalid_semantic_collection
    else ok (record { schema_major = schema_major; embedding_major = embedding_major })

unfoldable pub alias : SemanticCollection → Str
unfolding decimal
alias c =
    codes "ocr-memory-s" ++ (decimal c.schema_major ++ (codes "-e" ++ decimal c.embedding_major))

abbrev pub maximum_query_results : ℕ
maximum_query_results = 100

pub record SemanticQueryScope : Type 0 where
  pub tenant_id : TenantId
  pub collection : SemanticCollection
  pub limit : ℕ

unfoldable pub new_semantic_query_scope :
    TenantId → SemanticCollection → ℕ → Result Error SemanticQueryScope
new_semantic_query_scope tenant_id collection limit =
    if not (within 1 maximum_query_results limit)
    then err invalid_semantic_query_scope
    else ok (record { tenant_id = tenant_id; collection = collection; limit = limit })

-- `u64::to_be_bytes`
abbrev pub to_be_bytes : ℕ → List ℕ
to_be_bytes n =
    n / 72057594037927936 % 256
    ∷ n / 281474976710656 % 256
    ∷ n / 1099511627776 % 256
    ∷ n / 4294967296 % 256
    ∷ n / 16777216 % 256
    ∷ n / 65536 % 256
    ∷ n / 256 % 256
    ∷ n % 256
    ∷ []

-- What the loop of `VectorPointId::derive` gives to the digest.
abbrev pub framed : List Str → List ℕ
framed [] = []
framed (v ∷ vs) = to_be_bytes (len v) ++ (bytes v ++ framed vs)

unfoldable pub message : TenantId → MemoryRecordId → MemoryRecordVersion → EmbeddingVersion → List ℕ
message tenant record_id record_version embedding =
    codes "ocr-memory-point-v1"
    ++ framed (tenant.text ∷ record_id.text ∷ record_version.text ∷ embedding.text ∷ [])

-- The bytes from `digest[..16]` on to the identifier.
abbrev take : ℕ → List ℕ → List ℕ
take zero xs = []
take (suc n) [] = []
take (suc n) (x ∷ xs) = x ∷ take n xs

-- `bytes[index] = f(bytes[index])`
abbrev update : List ℕ → ℕ → (ℕ → ℕ) → List ℕ
update xs index f = elim (get_elem? xs index) [ none ↦ xs | some b ↦ set xs index (f b) ]

pub record VectorPointId : Type 0 where
  pub text : Str

module _ (sha256 : List ℕ → List ℕ) (uuid_text : List ℕ → Str) where
  -- `(b & 0x0f) | 0x80` and `(b & 0x3f) | 0x80`
  unfoldable pub derive :
      TenantId → MemoryRecordId → MemoryRecordVersion → EmbeddingVersion → VectorPointId
  unfolding message
  derive tenant record_id record_version embedding = record {
    text = uuid_text (
        update
          (update (take 16 (sha256 (message tenant record_id record_version embedding))) 6
            (λ b. b % 16 + 128))
          8 (λ b. b % 64 + 128));
  }

-- An i64: a number from 0 on, or the negative number below minus the argument.
pub data I64 : Type 0 where
  pos : ℕ → I64
  negsuc : ℕ → I64

abbrev is_positive : I64 → Bool
is_positive (pos n) = not (n == 0)
is_positive (negsuc n) = false

-- `VectorPointMetadataInput` has the same fields.
pub record VectorPointMetadata : Type 0 where
  pub tenant_id : TenantId
  pub memory_record_id : MemoryRecordId
  pub memory_record_version : MemoryRecordVersion
  pub document_id : DocumentId
  pub document_version : DocumentVersion
  pub chunk_id : ChunkId
  pub observation_ids : List ObservationId
  pub embedding_version : EmbeddingVersion
  pub collection : SemanticCollection
  pub retention_deadline_unix_seconds : I64

-- Whether an identifier stands among those before it, at one of the places.
abbrev pub repeats_id : List ObservationId → List ObservationId → Bool
repeats_id before [] = false
repeats_id before (i ∷ is) =
    any (λ b. str_eq b.text i.text) before || repeats_id (before ++ i ∷ []) is

unfoldable pub new_vector_point_metadata : VectorPointMetadata → Result Error VectorPointMetadata
unfolding str_eq
new_vector_point_metadata input =
    if not
        (within 1 128 (length input.observation_ids) && not (repeats_id [] input.observation_ids))
      || not (is_positive input.retention_deadline_unix_seconds)
    then err invalid_vector_point_metadata
    else ok input
