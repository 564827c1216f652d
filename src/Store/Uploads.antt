-- ===== src/Store/Uploads.antt =====
-- The uploads of crates/ocr-store/src/lib.rs: reserved, uploaded, inspected under a lease, and then
-- accepted or rejected. `*_row` is what an operation does to the row of its upload.
pub mod Rows
pub mod Calls
pub mod Invariant
pub mod Leases
pub mod Tests
use document_intelligence.Base.{
  ℕ, suc, ◌+◌, Bool, true, false, ◌&&◌, ◌||◌, not, List, [], ◌∷◌, ◌++◌, Option, none, some, map,
  if◌then◌else◌, ltb, leb, ◌==◌, any, Result, ok, err, ◌>>=◌, ◌>>◌, reject_if, map_err,
}
use document_intelligence.Base.Text.{Str, codes, str_eq, is_some_and}
use document_intelligence.Domain.Ids.{UploadId, new_upload_id}
use document_intelligence.Domain.SemanticMemory.{I64, pos, negsuc}
use document_intelligence.Store.Values.{
  Error, database, idempotency_conflict, invalid_stored_upload, within_i64, StoredWorkScope,
  scope_eq, CreateUpload, CreateUploadOutcome, StoredUpload, UploadState, RecordUpload,
  RecordUploadOutcome, AcceptUpload, AcceptUploadOutcome, ClaimUploadInspectionOutcome,
  UploadRejectionReason, as_str, RejectUploadOutcome,
}
use document_intelligence.Store.Validation.{
  validate_upload, validate_record, validate_accepted_source, validate_lease_owner,
}
use document_intelligence.Store.Tables.{
  Database, UploadRow, UploadEventRow, UploadEventType, find_row, update_row, is_lease_active,
  is_owned,
}
use document_intelligence.Store.Transactions.{validated, found, branch, commit}
use document_intelligence.Store.Uploads.Rows
use document_intelligence.Store.Uploads.Rows.{stored_upload, claim_outcome, claim_row}
use document_intelligence.Store.WorkScopes.{upload, register_work_scope, set_work_scope_pending}

-- `product_id = $1 and tenant_id = $2 and upload_id = $3`
abbrev pub has_upload : StoredWorkScope → UploadId → UploadRow → Bool
has_upload scope id row = scope_eq row.scope scope && str_eq row.upload_id.text id.text

-- The unique constraints on an inserted row, without the one on the idempotency key.
abbrev pub is_taken : CreateUpload → UploadRow → Bool
is_taken request row =
    str_eq row.upload_id.text request.upload_id.text
    || (str_eq row.object_bucket request.object_bucket
        && str_eq row.object_name request.object_name)

abbrev pub upload_scope : CreateUpload → StoredWorkScope
upload_scope request = record { product_id = request.product_id; tenant_id = request.tenant_id }

-- `product_id = $1 and tenant_id = $2 and idempotency_key = $3`
abbrev pub has_upload_key : CreateUpload → UploadRow → Bool
has_upload_key request row =
    scope_eq row.scope (upload_scope request)
    && str_eq row.idempotency_key.text request.idempotency_key.text

unfoldable pub create_upload :
    ℕ → CreateUpload → Database → Database × Result Error CreateUploadOutcome
create_upload now request db =
    found (find_row (has_upload_key request) db.uploads)
      (branch (any (is_taken request) db.uploads) (db, err database)
        (commit db (record db { uploads = db.uploads ++ Rows.reserved_row now request ∷ [] })
          CreateUploadOutcome.created (stored_upload (Rows.reserved_row now request))))
      (λ row.
        branch (not (str_eq row.request_digest.text request.request_digest.text))
          (db, err idempotency_conflict)
          (commit db db CreateUploadOutcome.existing (stored_upload row)))

-- `row.map(stored_upload).transpose()`
abbrev transposed : Option UploadRow → Result Error (Option StoredUpload)
transposed none = ok none
transposed (some row) = stored_upload row >>= λ upload. ok (some upload)

unfoldable pub find_upload :
    StoredWorkScope → UploadId → Database → Result Error (Option StoredUpload)
find_upload scope id db = transposed (find_row (has_upload scope id) db.uploads)

abbrev is_held : ℕ → Str → UploadRow → Bool
is_held now owner row =
    Rows.is_inspecting row.state
    && (is_owned owner row.inspection_lease_owner
        && is_lease_active now row.inspection_lease_expires_at)

unfoldable pub load_claimed_upload :
    ℕ → StoredWorkScope → UploadId → Str → Database → Result Error (Option StoredUpload)
load_claimed_upload now scope id owner db = do
  validate_lease_owner owner
  transposed (find_row (λ row. has_upload scope id row && is_held now owner row) db.uploads)

abbrev upload_event : StoredWorkScope → UploadId → UploadEventType → UploadEventRow
upload_event scope id type = record { scope = scope; upload_id = id; event_type = type }

-- The update of an upload's row, with the event that tells of it.
abbrev pub with_upload :
    StoredWorkScope → UploadId → UploadEventType → (UploadRow → UploadRow) → Database → Database
with_upload scope id type f db = record db {
  uploads = update_row (has_upload scope id) f db.uploads;
  upload_outbox = db.upload_outbox ++ upload_event scope id type ∷ [];
}

-- The match on a row that the update of `record_uploaded` left alone, by the clock of the process.
abbrev recorded_before : ℕ → RecordUpload → UploadRow → Result Error RecordUploadOutcome
recorded_before clock r row = elim row.state [
  | UploadState.uploaded ↦
      if Rows.is_recorded_as r row
      then (stored_upload row >>= λ stored. ok (RecordUploadOutcome.existing stored))
      else ok RecordUploadOutcome.not_recordable
  | UploadState.reserved ↦
      if leb row.expires_at clock
      then ok RecordUploadOutcome.expired
      else ok RecordUploadOutcome.verification_mismatch
  | _ ↦ ok RecordUploadOutcome.not_recordable
]

unfoldable pub record_uploaded :
    ℕ
    → ℕ
    → StoredWorkScope
    → UploadId
    → RecordUpload
    → Database
    → Database × Result Error RecordUploadOutcome
record_uploaded now clock scope id r db = validated db (validate_record r) (
    found (find_row (has_upload scope id) db.uploads) (db, ok RecordUploadOutcome.not_found)
      λ row.
        branch (Rows.is_recordable now r row)
          (commit db
            (register_work_scope now scope upload
              (with_upload scope id UploadEventType.received (Rows.uploaded_row now r) db))
            RecordUploadOutcome.recorded (stored_upload (Rows.uploaded_row now r row)))
          (db, recorded_before clock r row))

-- The outcome for a row that the update of `accept_upload` left alone.
abbrev accepted_before : AcceptUpload → UploadRow → AcceptUploadOutcome
accepted_before s row = elim row.state [
  | UploadState.accepted ↦
      if is_some_and row.source (Rows.is_source s)
      then AcceptUploadOutcome.existing
      else AcceptUploadOutcome.source_mismatch
  | _ ↦ AcceptUploadOutcome.not_acceptable
]

unfoldable pub accept_upload :
    ℕ
    → StoredWorkScope
    → UploadId
    → AcceptUpload
    → Database
    → Database × Result Error AcceptUploadOutcome
accept_upload now scope id s db = validated db (validate_accepted_source s) (
    found (find_row (has_upload scope id) db.uploads) (db, ok AcceptUploadOutcome.not_found)
      λ row.
        branch (Rows.is_acceptable now s row)
          (
            set_work_scope_pending now scope upload false
                (with_upload scope id UploadEventType.accepted (Rows.accepted_row s) db),
            ok AcceptUploadOutcome.accepted,
          )
          (db, ok (accepted_before s row)))

-- The writes of `claim_upload_inspection` after its match on the outcome.
abbrev pub claim_writes :
    ℕ → StoredWorkScope → UploadId → Str → ClaimUploadInspectionOutcome → Database → Database
claim_writes now scope id owner ClaimUploadInspectionOutcome.attempts_exhausted db =
    set_work_scope_pending now scope upload false (
      with_upload scope id UploadEventType.rejected
        (claim_row now owner ClaimUploadInspectionOutcome.attempts_exhausted) db)
claim_writes now scope id owner outcome db = record db {
  uploads = update_row (has_upload scope id) (claim_row now owner outcome) db.uploads;
}

unfoldable pub claim_upload_inspection :
    ℕ
    → StoredWorkScope
    → UploadId
    → Str
    → Database
    → Database × Result Error ClaimUploadInspectionOutcome
claim_upload_inspection now scope id owner db = validated db (validate_lease_owner owner) (
    found (find_row (has_upload scope id) db.uploads)
      (db, ok ClaimUploadInspectionOutcome.not_found)
      λ row. (
        claim_writes now scope id owner (claim_outcome now owner row) db,
        ok (claim_outcome now owner row),
      ))

-- The outcome for a row that the update of `reject_upload` left alone.
abbrev rejected_before : UploadRejectionReason → UploadRow → RejectUploadOutcome
rejected_before reason row = elim row.state [
  | UploadState.rejected ↦
      if Rows.holds_text row.rejection_reason (as_str reason)
      then RejectUploadOutcome.existing
      else RejectUploadOutcome.reason_mismatch
  | _ ↦ RejectUploadOutcome.not_rejectable
]

unfoldable pub reject_upload :
    ℕ
    → StoredWorkScope
    → UploadId
    → Str
    → UploadRejectionReason
    → Database
    → Database × Result Error RejectUploadOutcome
reject_upload now scope id owner reason db = validated db (validate_lease_owner owner) (
    found (find_row (has_upload scope id) db.uploads) (db, ok RejectUploadOutcome.not_found)
      λ row.
        branch (Rows.is_rejectable now owner row)
          (
            set_work_scope_pending now scope upload false
                (with_upload scope id UploadEventType.rejected (Rows.rejected_row reason) db),
            ok RejectUploadOutcome.rejected,
          )
          (db, ok (rejected_before reason row)))
