-- ===== src/Store/Tables.antt =====
-- The tables of crates/ocr-store/src/lib.rs as lists of rows, with the columns that it reads. The
-- columns of an accepted source are null together or set together. A checkpoint and the geometries
-- of pages are kept as values and not as JSON text; the payload of an event is never read. A
-- primary key names at most one row, so a statement about a key acts on the first row that has it.
use mathlib.Core.Option.{some-injective}
use document_intelligence.Base.{
  ℕ, ◌≡◌, refl, Bool, true, false, ◌&&◌, List, [], ◌∷◌, ◌++◌, Option, none, some, if◌then◌else◌,
  ltb, any, All, arith, Bool-cases, inl, inr, ◌⊎◌, sym, subst, ◌∙◌,
}
use document_intelligence.Base.Text.{Str, str_eq, is_some_and}
use document_intelligence.Domain.Errors.{JobState}
use document_intelligence.Domain.Ids.{
  JobId, UploadId, WebhookSubscriptionId, IdempotencyKey, RequestDigest,
}
use document_intelligence.Domain.SemanticMemory.{I64}
use document_intelligence.PageWorkflow.{PageWorkflow}
use document_intelligence.Store.Values.{
  StoredWorkScope, UploadState, StoredPageArtifact, StoredResultLocator, ParserInspectionMetadata,
}

pub record SourceColumns : Type 0 where
  pub source_bucket : Str
  pub source_object_name : Str
  pub source_object_version : Str
  pub source_digest : Str
  pub source_content_length : I64
  pub parser_inspection : ParserInspectionMetadata

pub record UploadRow : Type 0 where
  pub upload_id : UploadId
  pub scope : StoredWorkScope
  pub idempotency_key : IdempotencyKey
  pub request_digest : RequestDigest
  pub object_bucket : Str
  pub object_name : Str
  pub expected_content_type : Str
  pub expected_content_length : I64
  pub expected_digest : Str
  pub expires_at : ℕ
  pub created_at : ℕ
  pub state : UploadState
  pub object_version : Option Str
  pub verified_content_type : Option Str
  pub verified_content_length : Option I64
  pub verified_digest : Option Str
  pub uploaded_at : Option ℕ
  pub inspection_attempts : ℕ
  pub inspection_lease_owner : Option Str
  pub inspection_lease_expires_at : Option ℕ
  pub source : Option SourceColumns
  pub rejection_reason : Option Str

pub data UploadEventType : Type 0 where
  received accepted rejected : UploadEventType

pub record UploadEventRow : Type 0 where
  pub scope : StoredWorkScope
  pub upload_id : UploadId
  pub event_type : UploadEventType

pub record JobRow : Type 0 where
  pub job_id : JobId
  pub scope : StoredWorkScope
  pub idempotency_key : IdempotencyKey
  pub request_digest : RequestDigest
  pub upload_id : UploadId
  pub webhook_subscription_id : Option WebhookSubscriptionId
  pub extraction_schema_id : Option Str
  pub extraction_schema_version : Option Str
  pub status : JobState
  pub created_at : ℕ

-- The event types that are written to `ocr_outbox`.
pub data EventType : Type 0 where
  accepted cancellation_requested completed partial review_required : EventType

pub record EventRow : Type 0 where
  pub event_id : ℕ
  pub scope : StoredWorkScope
  pub job_id : JobId
  pub event_type : EventType
  pub created_at : ℕ
  pub published_at : Option ℕ
  pub delivery_attempts : ℕ
  pub delivery_lease_owner : Option Str
  pub delivery_lease_expires_at : Option ℕ
  pub dead_lettered_at : Option ℕ

pub record PageWorkflowRow : Type 0 where
  pub job_id : JobId
  pub scope : StoredWorkScope
  pub revision : ℕ
  pub checkpoint : PageWorkflow

pub record PageArtifactRow : Type 0 where
  pub job_id : JobId
  pub scope : StoredWorkScope
  pub artifact : StoredPageArtifact

pub record ResultRow : Type 0 where
  pub job_id : JobId
  pub scope : StoredWorkScope
  pub locator : StoredResultLocator

pub record WorkScopeRow : Type 0 where
  pub scope : StoredWorkScope
  pub upload_pending : Bool
  pub dispatch_pending : Bool
  pub lease_owner : Option Str
  pub lease_expires_at : Option ℕ
  pub updated_at : ℕ

-- `next_event_id` is the identity column of `ocr_outbox`.
pub record Database : Type 0 where
  pub uploads : List UploadRow
  pub upload_outbox : List UploadEventRow
  pub jobs : List JobRow
  pub outbox : List EventRow
  pub next_event_id : ℕ
  pub page_workflows : List PageWorkflowRow
  pub page_artifacts : List PageArtifactRow
  pub results : List ResultRow
  pub work_scopes : List WorkScopeRow

-- `interval '5 minutes'`
abbrev pub five_minutes : ℕ
five_minutes = 3_0000_0000

-- `coalesce(lease_expires_at > now(), false)`
abbrev pub is_lease_active : ℕ → Option ℕ → Bool
is_lease_active now expires = is_some_and expires (λ t. ltb now t)

-- `lease_owner = $n`, which is not true of null.
abbrev pub is_owned : Str → Option Str → Bool
is_owned owner column = is_some_and column (str_eq owner)

module _ {ℓ} {A : Type ℓ} where
  -- `select ... where key`
  abbrev pub find_row : (A → Bool) → List A → Option A
  find_row p [] = none
  find_row p (r ∷ rs) = if p r then some r else find_row p rs

  -- `update ... where key`
  abbrev pub update_row : (A → Bool) → (A → A) → List A → List A
  update_row p f [] = []
  update_row p f (r ∷ rs) = if p r then f r ∷ rs else r ∷ update_row p f rs

module _ {ℓ} {A : Type ℓ} (p : A → Bool) where
  -- A row that is found has the key.
  pub find_row-holds : (rs : List A) (r : A) → find_row p rs ≡ some r → p r ≡ true
  find_row-holds [] r e = cc
  find_row-holds (x ∷ rs) r e = ground (arith, find_row-holds rs r)

  -- A row that is found has what every row has.
  pub All-find_row {κ} :
      (P : A → Type κ) (rs : List A) (r : A) → All P rs → find_row p rs ≡ some r → P r
  All-find_row P [] r h e = cc
  All-find_row P (x ∷ rs) r h e = ground (arith, All-find_row P rs r h.1)

  pub All-update_row {κ} :
      (P : A → Type κ) (f : A → A) (rs : List A)
      → All P rs
      → ((r : A) → find_row p rs ≡ some r → P r → P (f r))
      → All P (update_row p f rs)
  All-update_row P f [] h k = tt
  All-update_row P f (x ∷ rs) h k = elim (Bool-cases (p x)) [
    | inl e ↦ (let found = k x (rw e refl) h.0 in rw e (found, h.1))
    | inr e ↦
        (let rest = All-update_row P f rs h.1 (λ r found. k r (rw e found)) in rw e (h.0, rest))
  ]

  pub All-update_found {κ} :
      (P : A → Type κ) (f : A → A) (rs : List A) (r : A)
      → find_row p rs ≡ some r
      → All P rs
      → (P r → P (f r))
      → All P (update_row p f rs)
  All-update_found P f rs r e h k =
      All-update_row P f rs h
        λ x found. subst (λ y. P y → P (f y)) (some-injective r x (sym e ∙ found)) k

module _ {ℓ} {A : Type ℓ} (p : A → Bool) where
  -- A row that is found stays found when rows are added.
  pub find_row-append :
      (rs more : List A) (r : A) → find_row p rs ≡ some r → find_row p (rs ++ more) ≡ some r
  find_row-append [] more r e = cc
  find_row-append (x ∷ rs) more r e = ground (arith, find_row-append rs more r)

  -- An update by another key that keeps the first key leaves a row that is found alone, or it is
  -- this row that it writes.
  pub find_row-update_row :
      (q : A → Bool) (f : A → A) (rs : List A) (r s : A)
      → find_row p rs ≡ some r
      → find_row q rs ≡ some s
      → p (f s) ≡ p s
      → (find_row p (update_row q f rs) ≡ some r)
        ⊎ (s ≡ r) × (find_row p (update_row q f rs) ≡ some (f s))
  find_row-update_row q f [] r s e d k = cc
  find_row-update_row q f (x ∷ rs) r s e d k = ground (arith, find_row-update_row q f rs r s)

  -- An update of rows that do not have the key leaves the row with the key alone.
  pub find_row-update_other :
      (q : A → Bool) (f : A → A) (rs : List A)
      → ((x : A) → q x ≡ true → p x ≡ false)
      → ((x : A) → p (f x) ≡ p x)
      → find_row p (update_row q f rs) ≡ find_row p rs
  find_row-update_other q f [] apart k = refl
  find_row-update_other q f (x ∷ rs) apart k = elim (Bool-cases (q x)) [
    | inl e ↦ ground (arith, e, apart x e, k x)
    | inr e ↦ ground (arith, e, find_row-update_other q f rs apart k)
  ]

  -- Two updates by a key that the first one keeps are one update.
  pub update_row_twice :
      (f g : A → A) (rs : List A)
      → ((x : A) → p (g x) ≡ p x)
      → update_row p f (update_row p g rs) ≡ update_row p (λ x. f (g x)) rs
  update_row_twice f g [] k = refl
  update_row_twice f g (x ∷ rs) k = ground (arith, k x, update_row_twice f g rs k)

  pub find_row-update_self :
      (f : A → A) (rs : List A) (r : A)
      → find_row p rs ≡ some r
      → p (f r) ≡ p r
      → find_row p (update_row p f rs) ≡ some (f r)
  find_row-update_self f [] r e k = cc
  find_row-update_self f (x ∷ rs) r e k = ground (arith, find_row-update_self f rs r)

  -- A row that has the first key and meets a condition is also the first with both.
  pub find_row_also :
      (q : A → Bool) (rs : List A) (r : A)
      → find_row p rs ≡ some r
      → q r ≡ true
      → find_row (λ x. p x && q x) rs ≡ some r
  find_row_also q [] r e k = cc
  find_row_also q (x ∷ rs) r e k = ground (arith, find_row_also q rs r)

  pub find_row-any : (rs : List A) (r : A) → find_row p rs ≡ some r → any p rs ≡ true
  find_row-any [] r e = cc
  find_row-any (x ∷ rs) r e = ground (arith, find_row-any rs r)

  -- The first row with a key is the one that is added.
  pub find_row-append_new :
      (rs : List A) (r : A) → any p rs ≡ false → p r ≡ true → find_row p (rs ++ r ∷ []) ≡ some r
  find_row-append_new [] r n h = ground (arith, h)
  find_row-append_new (x ∷ rs) r n h = ground (arith, n, find_row-append_new rs r)
