-- ===== src/Store/Uploads/Rows.antt =====
-- What the operations on uploads in crates/ocr-store/src/lib.rs do to the row of the upload.
use document_intelligence.Base.{
  ℕ, ◌+◌, Bool, true, false, ◌&&◌, not, List, [], ◌∷◌, Option, none, some, if◌then◌else◌, ltb, ◌==◌,
  Result, ok, ◌>>=◌, ◌>>◌, map_err,
}
use document_intelligence.Base.Text.{Str, codes, str_eq, is_some_and}
use document_intelligence.Domain.Ids.{UploadId, new_upload_id}
use document_intelligence.Domain.Geometry.{PageGeometry}
use document_intelligence.Domain.SemanticMemory.{I64, pos, negsuc}
use document_intelligence.Store.Values.{
  Error, invalid_stored_upload, CreateUpload, StoredUpload, UploadState, RecordUpload, AcceptUpload,
  ParserInspectionMetadata, ClaimUploadInspectionOutcome, UploadRejectionReason, as_str,
}
use document_intelligence.Store.Validation.{validate_upload}
use document_intelligence.Store.Tables.{
  UploadRow, SourceColumns, five_minutes, is_lease_active, is_owned,
}

abbrev to_upload : UploadRow → UploadId → StoredUpload
to_upload row id = record {
  upload_id = id;
  state = row.state;
  object_bucket = row.object_bucket;
  object_name = row.object_name;
  expected_content_type = row.expected_content_type;
  expected_content_length = row.expected_content_length;
  expected_digest = row.expected_digest;
  expires_at = row.expires_at;
  created_at = row.created_at;
  object_version = row.object_version;
  uploaded_at = row.uploaded_at;
}

-- A value of the column's enumeration is one of the states, which `parse_upload_state` names.
unfoldable pub stored_upload : UploadRow → Result Error StoredUpload
unfolding new_upload_id validate_upload
stored_upload row = do
  id ← map_err (λ _. invalid_stored_upload) (new_upload_id row.upload_id.text)
  validate_upload (to_upload row id)
  ok (to_upload row id)

-- The row that `create_upload` inserts.
unfoldable pub reserved_row : ℕ → CreateUpload → UploadRow
reserved_row now request = record {
  upload_id = request.upload_id;
  scope = record { product_id = request.product_id; tenant_id = request.tenant_id };
  idempotency_key = request.idempotency_key;
  request_digest = request.request_digest;
  object_bucket = request.object_bucket;
  object_name = request.object_name;
  expected_content_type = request.expected_content_type;
  expected_content_length = request.expected_content_length;
  expected_digest = request.expected_digest;
  expires_at = request.expires_at;
  created_at = now;
  state = UploadState.reserved;
  object_version = none;
  verified_content_type = none;
  verified_content_length = none;
  verified_digest = none;
  uploaded_at = none;
  inspection_attempts = 0;
  inspection_lease_owner = none;
  inspection_lease_expires_at = none;
  source = none;
  rejection_reason = none;
}

abbrev pub i64_eq : I64 → I64 → Bool
i64_eq (pos m) (pos n) = m == n
i64_eq (negsuc m) (negsuc n) = m == n
i64_eq _ _ = false

abbrev pub is_reserved : UploadState → Bool
is_reserved UploadState.reserved = true
is_reserved _ = false

abbrev pub is_inspecting : UploadState → Bool
is_inspecting UploadState.inspecting = true
is_inspecting _ = false

-- `record_uploaded`: the condition of the update
abbrev pub is_recordable : ℕ → RecordUpload → UploadRow → Bool
is_recordable now r row =
    is_reserved row.state
    && (ltb now row.expires_at
        && (str_eq row.expected_content_type r.verified_content_type
            && (i64_eq row.expected_content_length r.verified_content_length
                && str_eq row.expected_digest r.verified_digest)))

abbrev pub uploaded_row : ℕ → RecordUpload → UploadRow → UploadRow
uploaded_row now r row = record row {
  state = UploadState.uploaded;
  object_version = some r.object_version;
  verified_content_type = some r.verified_content_type;
  verified_content_length = some r.verified_content_length;
  verified_digest = some r.verified_digest;
  uploaded_at = some now;
}

-- `Some(column) == value`
abbrev pub holds_text : Option Str → Str → Bool
holds_text column value = is_some_and column (str_eq value)

abbrev pub holds_i64 : Option I64 → I64 → Bool
holds_i64 column value = is_some_and column (i64_eq value)

abbrev pub is_recorded_as : RecordUpload → UploadRow → Bool
is_recorded_as r row =
    holds_text row.object_version r.object_version
    && (holds_text row.verified_content_type r.verified_content_type
        && (holds_i64 row.verified_content_length r.verified_content_length
            && holds_text row.verified_digest r.verified_digest))

-- `accept_upload`: the condition of the update
abbrev pub is_acceptable : ℕ → AcceptUpload → UploadRow → Bool
is_acceptable now s row =
    is_inspecting row.state
    && (holds_text row.verified_digest s.source_digest
        && (holds_i64 row.verified_content_length s.source_content_length
            && (is_owned s.inspection_lease_owner row.inspection_lease_owner
                && is_lease_active now row.inspection_lease_expires_at)))

abbrev pub source_columns : AcceptUpload → SourceColumns
source_columns s = record {
  source_bucket = s.source_bucket;
  source_object_name = s.source_object_name;
  source_object_version = s.source_object_version;
  source_digest = s.source_digest;
  source_content_length = s.source_content_length;
  parser_inspection = s.parser_inspection;
}

abbrev pub accepted_row : AcceptUpload → UploadRow → UploadRow
accepted_row s row = record row {
  state = UploadState.accepted;
  source = some (source_columns s);
  inspection_lease_owner = none;
  inspection_lease_expires_at = none;
}

-- the derived `PartialEq`
abbrev geometry_eq : PageGeometry → PageGeometry → Bool
geometry_eq a b =
    (a.page.number == b.page.number) && ((a.width == b.width) && (a.height == b.height))

abbrev geometries_eq : List PageGeometry → List PageGeometry → Bool
geometries_eq [] [] = true
geometries_eq (a ∷ as_) (b ∷ bs) = geometry_eq a b && geometries_eq as_ bs
geometries_eq _ _ = false

abbrev inspection_eq : ParserInspectionMetadata → ParserInspectionMetadata → Bool
inspection_eq a b =
    i64_eq a.page_count b.page_count
    && (i64_eq a.maximum_page_pixels b.maximum_page_pixels
        && (i64_eq a.total_page_pixels b.total_page_pixels
            && (geometries_eq a.page_geometries b.page_geometries
                && (str_eq a.profile b.profile && str_eq a.version b.version))))

-- The columns of an accepted row are those of the command.
abbrev pub is_source : AcceptUpload → SourceColumns → Bool
is_source s c =
    str_eq c.source_bucket s.source_bucket
    && (str_eq c.source_object_name s.source_object_name
        && (str_eq c.source_object_version s.source_object_version
            && (str_eq c.source_digest s.source_digest
                && (i64_eq c.source_content_length s.source_content_length
                    && inspection_eq c.parser_inspection s.parser_inspection))))

-- The match on the state in `claim_upload_inspection`.
unfoldable pub claim_outcome : ℕ → Str → UploadRow → ClaimUploadInspectionOutcome
claim_outcome now owner row =
    let is_active = is_lease_active now row.inspection_lease_expires_at in
    elim row.state [
      | UploadState.uploaded ↦
          if ltb row.inspection_attempts 10
          then ClaimUploadInspectionOutcome.claimed
          else ClaimUploadInspectionOutcome.not_inspectable
      | UploadState.inspecting ↦
          if is_active && is_owned owner row.inspection_lease_owner
          then ClaimUploadInspectionOutcome.existing
          else if not is_active && ltb row.inspection_attempts 10
          then ClaimUploadInspectionOutcome.claimed
          else if not is_active
          then ClaimUploadInspectionOutcome.attempts_exhausted
          else ClaimUploadInspectionOutcome.busy
      | _ ↦ ClaimUploadInspectionOutcome.not_inspectable
    ]

-- The update that follows each outcome.
unfoldable pub claim_row : ℕ → Str → ClaimUploadInspectionOutcome → UploadRow → UploadRow
claim_row now owner ClaimUploadInspectionOutcome.claimed row = record row {
  state = UploadState.inspecting;
  inspection_attempts = row.inspection_attempts + 1;
  inspection_lease_owner = some owner;
  inspection_lease_expires_at = some (now + five_minutes);
}
claim_row now owner ClaimUploadInspectionOutcome.existing row =
    if is_owned owner row.inspection_lease_owner
    then record row { inspection_lease_expires_at = some (now + five_minutes) }
    else row
claim_row now owner ClaimUploadInspectionOutcome.attempts_exhausted row = record row {
  state = UploadState.rejected;
  inspection_lease_owner = none;
  inspection_lease_expires_at = none;
  rejection_reason = some (codes "inspection_attempts_exhausted");
}
claim_row now owner _ row = row

-- `reject_upload`: the condition of the update
abbrev pub is_rejectable : ℕ → Str → UploadRow → Bool
is_rejectable now owner row =
    is_inspecting row.state
    && (is_owned owner row.inspection_lease_owner
        && is_lease_active now row.inspection_lease_expires_at)

unfoldable pub rejected_row : UploadRejectionReason → UploadRow → UploadRow
unfolding as_str
rejected_row reason row = record row {
  state = UploadState.rejected;
  rejection_reason = some (as_str reason);
  inspection_lease_owner = none;
  inspection_lease_expires_at = none;
}
