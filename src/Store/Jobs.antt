-- ===== src/Store/Jobs.antt =====
-- The jobs of crates/ocr-store/src/lib.rs: creation from an accepted upload, cancellation, and the
-- one result that a job gets.
pub mod Results
pub mod Sources
use document_intelligence.Base.{
  ℕ, suc, ◌+◌, Bool, true, false, ◌&&◌, ◌||◌, not, List, [], ◌∷◌, ◌++◌, Option, none, some,
  if◌then◌else◌, any, Result, ok, err, ◌>>=◌, ◌>>◌, map_err,
}
use document_intelligence.Base.Text.{Str, codes, str_eq, strip_prefix}
use document_intelligence.Domain.Errors.{
  JobState, accepted, inspecting, processing, validating, cancelling, cancelled, rejected, partial,
  review_required, completed,
}
use document_intelligence.Domain.JobLifecycle.{state_eq}
use document_intelligence.Domain.Ids.{
  JobId, WebhookSubscriptionId, new_job_id, new_document_id, new_document_version,
}
use document_intelligence.Store.Values.{
  Error, database, idempotency_conflict, invalid_stored_job, invalid_stored_result,
  invalid_stored_upload, upload_source_unavailable, StoredWorkScope, scope_eq, SchemaReference,
  CreateJob, CreateOutcome, CancelOutcome, CompleteCancellationOutcome, StoredJob,
  StoredDocumentIdentity, StoredAcceptedSource, StoredResultLocator, CommitResult,
  CommitResultOutcome, ResultLookup, UploadState,
}
use document_intelligence.Store.Validation.{
  validate_locator, validate_accepted_source_locator, from_i64,
}
use document_intelligence.Store.Tables.{
  Database, UploadRow, SourceColumns, JobRow, EventRow, EventType, ResultRow, find_row, update_row,
}
use document_intelligence.Store.Transactions.{validated, decoded, found, branch, commit}
use document_intelligence.Store.WorkScopes.{dispatch, register_work_scope}
use document_intelligence.Store.Uploads.{has_upload}

-- `product_id = $1 and tenant_id = $2 and job_id = $3`
abbrev pub has_job : StoredWorkScope → JobId → JobRow → Bool
has_job scope id row = scope_eq row.scope scope && str_eq row.job_id.text id.text

-- A value of the column's enumeration is one of the states, which `parse_job_state` names.
unfoldable pub stored_job : JobRow → Result Error StoredJob
unfolding new_job_id
stored_job row = map_err (λ _. invalid_stored_job) (new_job_id row.job_id.text) >>= λ id.
    ok (record { job_id = id; state = row.status; created_at = row.created_at })

-- `insert into ocr_outbox`
abbrev event_row : ℕ → ℕ → StoredWorkScope → JobId → EventType → EventRow
event_row id now scope job_id type = record {
  event_id = id;
  scope = scope;
  job_id = job_id;
  event_type = type;
  created_at = now;
  published_at = none;
  delivery_attempts = 0;
  delivery_lease_owner = none;
  delivery_lease_expires_at = none;
  dead_lettered_at = none;
}

unfoldable pub emit : ℕ → StoredWorkScope → JobId → EventType → Database → Database
emit now scope id type db = record db {
  outbox = db.outbox ++ event_row db.next_event_id now scope id type ∷ [];
  next_event_id = db.next_event_id + 1;
}

abbrev pub with_status : JobState → JobRow → JobRow
with_status status row = record row { status = status }

-- `update ocr_jobs set status = ..`
abbrev pub set_status : StoredWorkScope → JobId → JobState → Database → Database
set_status scope id status db = record db {
  jobs = update_row (has_job scope id) (with_status status) db.jobs;
}

abbrev pub job_scope : CreateJob → StoredWorkScope
job_scope request = record { product_id = request.product_id; tenant_id = request.tenant_id }

-- `product_id = $1 and tenant_id = $2 and idempotency_key = $3`
abbrev pub has_job_key : CreateJob → JobRow → Bool
has_job_key request row =
    scope_eq row.scope (job_scope request)
    && str_eq row.idempotency_key.text request.idempotency_key.text

abbrev pub is_accepted : UploadState → Bool
is_accepted UploadState.accepted = true
is_accepted _ = false

abbrev pub is_source : CreateJob → UploadRow → Bool
is_source request row =
    has_upload (job_scope request) request.upload_id row && is_accepted row.state

abbrev schema_id_of : Option SchemaReference → Option Str
schema_id_of none = none
schema_id_of (some e) = some e.schema_id

abbrev schema_version_of : Option SchemaReference → Option Str
schema_version_of none = none
schema_version_of (some e) = some e.schema_version

unfoldable pub accepted_job : ℕ → CreateJob → JobRow
accepted_job now request = record {
  job_id = request.job_id;
  scope = job_scope request;
  idempotency_key = request.idempotency_key;
  request_digest = request.request_digest;
  upload_id = request.upload_id;
  webhook_subscription_id = request.webhook_subscription_id;
  extraction_schema_id = schema_id_of request.extraction;
  extraction_schema_version = schema_version_of request.extraction;
  status = accepted;
  created_at = now;
}

-- `==` on optional identifiers
abbrev pub webhook_eq : Option WebhookSubscriptionId → Option WebhookSubscriptionId → Bool
webhook_eq none none = true
webhook_eq (some a) (some b) = str_eq a.text b.text
webhook_eq _ _ = false

-- What follows an insert that inserted nothing.
unfoldable pub existing_job : CreateJob → Database → Database × Result Error CreateOutcome
existing_job request db =
    found (find_row (has_job_key request) db.jobs) (db, err upload_source_unavailable)
      λ row.
        branch
          (not (str_eq row.request_digest.text request.request_digest.text)
            || not (webhook_eq row.webhook_subscription_id request.webhook_subscription_id))
          (db, err idempotency_conflict) (commit db db CreateOutcome.existing (stored_job row))

-- The inserted job with its event and the work that it makes.
abbrev pub with_job : ℕ → CreateJob → Database → Database
with_job now request db = register_work_scope now (job_scope request) dispatch (
    emit now (job_scope request) request.job_id EventType.accepted
      (record db { jobs = db.jobs ++ accepted_job now request ∷ [] }))

unfoldable pub create : ℕ → CreateJob → Database → Database × Result Error CreateOutcome
create now request db =
    found (find_row (is_source request) db.uploads) (existing_job request db) λ _.
      branch (any (has_job_key request) db.jobs) (existing_job request db) (
        branch (any (λ row. str_eq row.job_id.text request.job_id.text) db.jobs) (db, err database)
          (commit db (with_job now request db) CreateOutcome.created
            (stored_job (accepted_job now request))))

unfoldable pub find : StoredWorkScope → JobId → Database → Result Error (Option StoredJob)
find scope id db = elim (find_row (has_job scope id) db.jobs) [
  | none ↦ ok none
  | some row ↦ stored_job row >>= λ job. ok (some job)
]

-- The states from which `cancel` updates.
abbrev pub is_cancellable : JobState → Bool
is_cancellable accepted = true
is_cancellable inspecting = true
is_cancellable processing = true
is_cancellable validating = true
is_cancellable _ = false

abbrev cancelled_before : StoredJob → CancelOutcome
cancelled_before job = elim job.state [
  | cancelling ↦ CancelOutcome.existing job
  | cancelled ↦ CancelOutcome.existing job
  | _ ↦ CancelOutcome.not_cancellable job
]

unfoldable pub cancel :
    ℕ → StoredWorkScope → JobId → Database → Database × Result Error CancelOutcome
cancel now scope id db =
    found (find_row (has_job scope id) db.jobs) (db, ok CancelOutcome.not_found)
      λ row.
        branch (is_cancellable row.status)
          (commit db
            (register_work_scope now scope dispatch (
              emit now scope id EventType.cancellation_requested
                (set_status scope id cancelled db)))
            CancelOutcome.requested (stored_job (with_status cancelled row)))
          (commit db db cancelled_before (stored_job row))

unfoldable pub complete_cancellation :
    StoredWorkScope → JobId → Database → Database × Result Error CompleteCancellationOutcome
complete_cancellation scope id db =
    found (find_row (has_job scope id) db.jobs) (db, ok CompleteCancellationOutcome.not_found)
      λ row. decoded db (stored_job row) λ job.
        branch (state_eq job.state cancelled) (db, ok (CompleteCancellationOutcome.existing job))
          (branch (state_eq job.state cancelling)
            (commit db (set_status scope id cancelled db) CompleteCancellationOutcome.cancelled
              (stored_job (with_status cancelled row)))
            (db, ok (CompleteCancellationOutcome.not_cancellable job)))

-- The states that a result may have.
abbrev pub is_final : JobState → Bool
is_final partial = true
is_final review_required = true
is_final completed = true
is_final _ = false

unfoldable pub stored_result_locator : ResultRow → Result Error StoredResultLocator
unfolding new_document_id new_document_version validate_locator
stored_result_locator row = do
  document ← map_err (λ _. invalid_stored_result) (new_document_id row.locator.document_id.text)
  version ←
      map_err (λ _. invalid_stored_result) (new_document_version row.locator.document_version.text)
  validate_locator (record row.locator { document_id = document; document_version = version })
  ok (record row.locator { document_id = document; document_version = version })

abbrev lookup_without : JobState → Result Error ResultLookup
lookup_without partial = err invalid_stored_result
lookup_without review_required = err invalid_stored_result
lookup_without completed = err invalid_stored_result
lookup_without cancelled = ok (ResultLookup.unavailable cancelled)
lookup_without rejected = ok (ResultLookup.unavailable rejected)
lookup_without state = ok (ResultLookup.not_ready state)

abbrev pub has_result : JobId → ResultRow → Bool
has_result id row = str_eq row.job_id.text id.text

unfoldable pub find_result : StoredWorkScope → JobId → Database → Result Error ResultLookup
find_result scope id db = elim (find_row (has_job scope id) db.jobs) [
  | none ↦ ok ResultLookup.not_found
  | some job ↦ elim (find_row (has_result job.job_id) db.results) [
    | none ↦ lookup_without job.status
    | some row ↦
        if not (is_final job.status)
        then err invalid_stored_result
        else (stored_result_locator row >>= λ locator. ok (ResultLookup.ready locator))
  ]
]
