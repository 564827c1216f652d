-- ===== src/Domain/Ids.antt =====
-- The validated texts of crates/ocr-domain/src/lib.rs and semantic_memory.rs: identifiers, digests,
-- keys, codes and versions. Each type wraps its text, and `new_*` is its constructor.
pub mod Laws
pub mod Tests
use document_intelligence.Base.{
  ℕ, suc, Bool, true, false, ◌&&◌, ◌||◌, not, List, [], ◌∷◌, Option, none, some, if◌then◌else◌, leb,
  ◌==◌, within, all, length, Result, ok, err,
}
use document_intelligence.Base.Text.{
  Str, codes, bytes, len, is_empty, strip_prefix, or_default, first, last, is_some_and,
  is_ascii_lowercase, is_ascii_uppercase, is_ascii_digit, is_ascii_alphanumeric, is_ascii_hexdigit,
  is_ascii_graphic,
}
use document_intelligence.Domain.Errors.{
  Error, invalid_tenant_id, invalid_job_id, invalid_upload_id, invalid_webhook_subscription_id,
  invalid_document_id, invalid_observation_id, invalid_table_id, invalid_memory_record_id,
  invalid_chunk_id, invalid_request_digest, invalid_document_version, invalid_memory_record_version,
  invalid_product_id, invalid_idempotency_key, invalid_stable_code, invalid_embedding_version,
}

-- A byte of an identifier's suffix.
abbrev pub id_byte : ℕ → Bool
id_byte b = is_ascii_alphanumeric b || b == b'_'

unfoldable pub validated_id : Str → Str → Error → Result Error Str
unfolding strip_prefix len bytes
validated_id value prefix error =
    let suffix = or_default (strip_prefix prefix value) in
    if not (is_empty suffix) && leb (len suffix) 64 && all id_byte (bytes suffix)
    then ok value
    else err error

abbrev pub digest_byte : ℕ → Bool
digest_byte b = is_ascii_hexdigit b && not (is_ascii_uppercase b)

unfoldable pub is_canonical_sha256 : Str → Bool
unfolding strip_prefix len bytes
is_canonical_sha256 value =
    let digest = or_default (strip_prefix (codes "sha256:") value) in
    (len digest == 64) && all digest_byte (bytes digest)

-- `validated_id(..).map(Self)`
abbrev pub map_ok : {A : Type 0} → (Str → A) → Result Error Str → Result Error A
map_ok f (ok s) = ok (f s)
map_ok f (err e) = err e

pub record TenantId : Type 0 where
  pub text : Str

unfoldable pub new_tenant_id : Str → Result Error TenantId
unfolding validated_id
new_tenant_id value =
    map_ok (λ s. record { text = s }) (validated_id value (codes "ten_") invalid_tenant_id)

pub record JobId : Type 0 where
  pub text : Str

unfoldable pub new_job_id : Str → Result Error JobId
unfolding validated_id
new_job_id value =
    map_ok (λ s. record { text = s }) (validated_id value (codes "job_") invalid_job_id)

pub record UploadId : Type 0 where
  pub text : Str

unfoldable pub new_upload_id : Str → Result Error UploadId
unfolding validated_id
new_upload_id value =
    map_ok (λ s. record { text = s }) (validated_id value (codes "upl_") invalid_upload_id)

pub record WebhookSubscriptionId : Type 0 where
  pub text : Str

unfoldable pub new_webhook_subscription_id : Str → Result Error WebhookSubscriptionId
unfolding validated_id
new_webhook_subscription_id value =
    map_ok (λ s. record { text = s })
      (validated_id value (codes "whs_") invalid_webhook_subscription_id)

pub record DocumentId : Type 0 where
  pub text : Str

unfoldable pub new_document_id : Str → Result Error DocumentId
unfolding validated_id
new_document_id value =
    map_ok (λ s. record { text = s }) (validated_id value (codes "doc_") invalid_document_id)

pub record ObservationId : Type 0 where
  pub text : Str

unfoldable pub new_observation_id : Str → Result Error ObservationId
unfolding validated_id
new_observation_id value =
    map_ok (λ s. record { text = s }) (validated_id value (codes "obs_") invalid_observation_id)

pub record TableId : Type 0 where
  pub text : Str

unfoldable pub new_table_id : Str → Result Error TableId
unfolding validated_id
new_table_id value =
    map_ok (λ s. record { text = s }) (validated_id value (codes "tbl_") invalid_table_id)

pub record MemoryRecordId : Type 0 where
  pub text : Str

unfoldable pub new_memory_record_id : Str → Result Error MemoryRecordId
unfolding validated_id
new_memory_record_id value =
    map_ok (λ s. record { text = s }) (validated_id value (codes "mem_") invalid_memory_record_id)

pub record ChunkId : Type 0 where
  pub text : Str

unfoldable pub new_chunk_id : Str → Result Error ChunkId
unfolding validated_id
new_chunk_id value =
    map_ok (λ s. record { text = s }) (validated_id value (codes "chk_") invalid_chunk_id)

pub record RequestDigest : Type 0 where
  pub text : Str

unfoldable pub new_request_digest : Str → Result Error RequestDigest
unfolding is_canonical_sha256
new_request_digest value =
    if is_canonical_sha256 value then ok (record { text = value }) else err invalid_request_digest

pub record DocumentVersion : Type 0 where
  pub text : Str

unfoldable pub new_document_version : Str → Result Error DocumentVersion
unfolding is_canonical_sha256
new_document_version value =
    if is_canonical_sha256 value then ok (record { text = value }) else err invalid_document_version

pub record MemoryRecordVersion : Type 0 where
  pub text : Str

unfoldable pub new_memory_record_version : Str → Result Error MemoryRecordVersion
unfolding is_canonical_sha256
new_memory_record_version value =
    if is_canonical_sha256 value
    then ok (record { text = value })
    else err invalid_memory_record_version

pub record ProductId : Type 0 where
  pub text : Str

-- `as_bytes().first().zip(as_bytes().last())` with both edges alphanumeric
abbrev pub valid_edges : List ℕ → Bool
valid_edges bs =
    is_some_and (first bs)
      (λ a. is_some_and (last bs) (λ z. is_ascii_alphanumeric a && is_ascii_alphanumeric z))

abbrev pub product_byte : ℕ → Bool
product_byte b = is_ascii_lowercase b || (is_ascii_digit b || b == b'-')

unfoldable pub new_product_id : Str → Result Error ProductId
unfolding len bytes
new_product_id value =
    let valid_length = not (is_empty value) && leb (len value) 63 in
    let valid_characters = all product_byte (bytes value) in
    if valid_length && valid_edges (bytes value) && valid_characters
    then ok (record { text = value })
    else err invalid_product_id

pub record IdempotencyKey : Type 0 where
  pub text : Str

unfoldable pub new_idempotency_key : Str → Result Error IdempotencyKey
unfolding len bytes
new_idempotency_key value =
    if not (is_empty value) && leb (len value) 128 && all is_ascii_graphic (bytes value)
    then ok (record { text = value })
    else err invalid_idempotency_key

pub record StableCode : Type 0 where
  pub text : Str

abbrev pub code_byte : ℕ → Bool
code_byte b = is_ascii_lowercase b || (is_ascii_digit b || b == b'_')

-- `bytes.next()` takes the first byte, and `bytes.all` reads the others.
abbrev pub code_bytes : List ℕ → Bool
code_bytes [] = false
code_bytes (b ∷ bs) = is_ascii_lowercase b && all code_byte bs

unfoldable pub new_stable_code : Str → Result Error StableCode
unfolding len bytes
new_stable_code value =
    if within 1 64 (len value) && code_bytes (bytes value)
    then ok (record { text = value })
    else err invalid_stable_code

pub record EmbeddingVersion : Type 0 where
  pub text : Str

abbrev pub embedding_byte : ℕ → Bool
embedding_byte b =
    is_ascii_lowercase b || (is_ascii_digit b || (b == b'.' || (b == b'_' || b == b'-')))

unfoldable pub new_embedding_version : Str → Result Error EmbeddingVersion
unfolding strip_prefix len bytes
new_embedding_version value =
    let suffix = or_default (strip_prefix (codes "emb_") value) in
    if not (is_empty suffix)
      && leb (len suffix) 64
      && valid_edges (bytes suffix)
      && all embedding_byte (bytes suffix)
    then ok (record { text = value })
    else err invalid_embedding_version
