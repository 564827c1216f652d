-- ===== src/Store/Values.antt =====
-- The requests, rows and outcomes of crates/ocr-store/src/lib.rs. A time is a number of
-- microseconds.
use document_intelligence.Base.{ℕ, Bool, false, ◌&&◌, List, Option, within}
use document_intelligence.Base.Text.{Str, codes, str_eq}
use document_intelligence.Domain.Errors.{JobState}
use document_intelligence.Domain.Ids.{
  TenantId, ProductId, JobId, UploadId, DocumentId, DocumentVersion, WebhookSubscriptionId,
  IdempotencyKey, RequestDigest,
}
use document_intelligence.Domain.Geometry.{PageGeometry}
use document_intelligence.Domain.SemanticMemory.{I64, pos, negsuc}
use document_intelligence.PageWorkflow.{PageWorkflow}

pub data Error : Type 0 where
  database idempotency_conflict invalid_stored_job invalid_stored_result : Error
  invalid_stored_upload upload_source_unavailable invalid_outbox_event : Error
  invalid_stored_page_workflow invalid_stored_page_artifact invalid_work_scope : Error

-- `(lo..=hi).contains(&x)` of an i64 between numbers
abbrev pub within_i64 : ℕ → ℕ → I64 → Bool
within_i64 lo hi (pos n) = within lo hi n
within_i64 lo hi (negsuc n) = false

pub record SchemaReference : Type 0 where
  pub schema_id : Str
  pub schema_version : Str

pub record CreateJob : Type 0 where
  pub job_id : JobId
  pub tenant_id : TenantId
  pub product_id : ProductId
  pub idempotency_key : IdempotencyKey
  pub request_digest : RequestDigest
  pub upload_id : UploadId
  pub webhook_subscription_id : Option WebhookSubscriptionId
  pub extraction : Option SchemaReference

pub record StoredJob : Type 0 where
  pub job_id : JobId
  pub state : JobState
  pub created_at : ℕ

pub data CreateOutcome : Type 0 where
  created existing : StoredJob → CreateOutcome

pub data CancelOutcome : Type 0 where
  requested existing not_cancellable : StoredJob → CancelOutcome
  not_found : CancelOutcome

pub data CompleteCancellationOutcome : Type 0 where
  cancelled existing not_cancellable : StoredJob → CompleteCancellationOutcome
  not_found : CompleteCancellationOutcome

pub record StoredDocumentIdentity : Type 0 where
  pub document_id : DocumentId
  pub document_version : DocumentVersion
  pub extraction : Option SchemaReference

pub record StoredAcceptedSource : Type 0 where
  pub bucket : Str
  pub object_name : Str
  pub generation : Str
  pub digest : Str
  pub content_length : I64
  pub content_type : Str
  pub page_count : ℕ
  pub maximum_page_pixels : ℕ
  pub total_page_pixels : ℕ
  pub page_geometries : List PageGeometry
  pub parser_profile : Str
  pub parser_version : Str

pub record StoredPageWorkflow : Type 0 where
  pub workflow : PageWorkflow
  pub revision : ℕ

pub record StoredPageArtifact : Type 0 where
  pub page : ℕ
  pub attempt : ℕ
  pub activity_key : Str
  pub object_bucket : Str
  pub object_name : Str
  pub object_version : Str
  pub object_digest : Str
  pub content_length : I64

pub data CreatePageWorkflowOutcome : Type 0 where
  created existing : StoredPageWorkflow → CreatePageWorkflowOutcome
  conflict not_found : CreatePageWorkflowOutcome

pub data SavePageWorkflowOutcome : Type 0 where
  saved : StoredPageWorkflow → SavePageWorkflowOutcome
  conflict not_found : SavePageWorkflowOutcome

-- `ClaimJobOutbox` and `ClaimWorkScopes` have the same fields.
pub record ClaimJobOutbox : Type 0 where
  pub lease_owner : Str
  pub limit : I64

pub record StoredWorkScope : Type 0 where
  pub product_id : ProductId
  pub tenant_id : TenantId

-- The restriction of every statement to `product_id = $1 and tenant_id = $2`.
abbrev pub scope_eq : StoredWorkScope → StoredWorkScope → Bool
scope_eq a b =
    str_eq a.product_id.text b.product_id.text && str_eq a.tenant_id.text b.tenant_id.text

pub data JobOutboxEventType : Type 0 where
  accepted cancellation_requested : JobOutboxEventType

pub record StoredJobOutboxEvent : Type 0 where
  pub event_id : ℕ
  pub job_id : JobId
  pub event_type : JobOutboxEventType
  pub page_count : ℕ

pub data PublishJobOutboxOutcome : Type 0 where
  published existing lease_lost not_found : PublishJobOutboxOutcome

pub record StoredResultLocator : Type 0 where
  pub document_id : DocumentId
  pub document_version : DocumentVersion
  pub object_bucket : Str
  pub object_name : Str
  pub object_version : Str
  pub object_digest : Str
  pub content_length : I64

pub record CommitResult : Type 0 where
  pub terminal_state : JobState
  pub locator : StoredResultLocator

pub data CommitResultOutcome : Type 0 where
  committed existing : StoredJob → CommitResultOutcome
  conflict not_committable not_found : CommitResultOutcome

pub data ResultLookup : Type 0 where
  ready : StoredResultLocator → ResultLookup
  not_ready unavailable : JobState → ResultLookup
  not_found : ResultLookup

pub record CreateUpload : Type 0 where
  pub upload_id : UploadId
  pub tenant_id : TenantId
  pub product_id : ProductId
  pub idempotency_key : IdempotencyKey
  pub request_digest : RequestDigest
  pub object_bucket : Str
  pub object_name : Str
  pub expected_content_type : Str
  pub expected_content_length : I64
  pub expected_digest : Str
  pub expires_at : ℕ

pub data UploadState : Type 0 where
  reserved uploaded inspecting accepted rejected expired : UploadState

pub record StoredUpload : Type 0 where
  pub upload_id : UploadId
  pub state : UploadState
  pub object_bucket : Str
  pub object_name : Str
  pub expected_content_type : Str
  pub expected_content_length : I64
  pub expected_digest : Str
  pub expires_at : ℕ
  pub created_at : ℕ
  pub object_version : Option Str
  pub uploaded_at : Option ℕ

pub data CreateUploadOutcome : Type 0 where
  created existing : StoredUpload → CreateUploadOutcome

pub record RecordUpload : Type 0 where
  pub object_version : Str
  pub verified_content_type : Str
  pub verified_content_length : I64
  pub verified_digest : Str

pub data RecordUploadOutcome : Type 0 where
  recorded existing : StoredUpload → RecordUploadOutcome
  expired verification_mismatch not_recordable not_found : RecordUploadOutcome

pub record ParserInspectionMetadata : Type 0 where
  pub page_count : I64
  pub maximum_page_pixels : I64
  pub total_page_pixels : I64
  pub page_geometries : List PageGeometry
  pub profile : Str
  pub version : Str

pub record AcceptUpload : Type 0 where
  pub inspection_lease_owner : Str
  pub source_bucket : Str
  pub source_object_name : Str
  pub source_object_version : Str
  pub source_digest : Str
  pub source_content_length : I64
  pub parser_inspection : ParserInspectionMetadata

pub data ClaimUploadInspectionOutcome : Type 0 where
  claimed existing busy attempts_exhausted not_inspectable not_found : ClaimUploadInspectionOutcome

pub data AcceptUploadOutcome : Type 0 where
  accepted existing source_mismatch not_acceptable not_found : AcceptUploadOutcome

pub data UploadRejectionReason : Type 0 where
  malware_detected invalid_document parser_limits_exceeded : UploadRejectionReason
  password_required source_conflict : UploadRejectionReason

unfoldable pub as_str : UploadRejectionReason → Str
as_str malware_detected = codes "malware_detected"
as_str invalid_document = codes "invalid_document"
as_str parser_limits_exceeded = codes "parser_limits_exceeded"
as_str password_required = codes "password_required"
as_str source_conflict = codes "source_conflict"

pub data RejectUploadOutcome : Type 0 where
  rejected existing reason_mismatch not_rejectable not_found : RejectUploadOutcome
