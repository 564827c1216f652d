-- ===== src/Store/Jobs/Sources.antt =====
-- What crates/ocr-store/src/lib.rs reads of the upload of a job: `load_document_identity` and
-- `load_accepted_source`.
use document_intelligence.Base.{
  Bool, ◌&&◌, ◌++◌, Option, none, some, Result, ok, err, ◌>>=◌, ◌>>◌, map_err,
}
use document_intelligence.Base.Text.{Str, codes, strip_prefix}
use document_intelligence.Domain.Ids.{JobId, new_document_id, new_document_version}
use document_intelligence.Store.Values.{
  Error, database, invalid_stored_job, invalid_stored_upload, StoredWorkScope, SchemaReference,
  StoredDocumentIdentity, StoredAcceptedSource,
}
use document_intelligence.Store.Validation.{validate_accepted_source_locator, from_i64}
use document_intelligence.Store.Tables.{Database, UploadRow, SourceColumns, JobRow, find_row}
use document_intelligence.Store.Uploads.{has_upload}
use document_intelligence.Store.Jobs.{has_job, is_accepted}

abbrev is_accepted_upload : JobRow → UploadRow → Bool
is_accepted_upload job row = has_upload job.scope job.upload_id row && is_accepted row.state

-- The join of a job with its accepted upload.
unfoldable pub job_source : StoredWorkScope → JobId → Database → Option (JobRow × UploadRow)
job_source scope id db = elim (find_row (has_job scope id) db.jobs) [
  | none ↦ none
  | some job ↦ elim (find_row (is_accepted_upload job) db.uploads) [
    | none ↦ none
    | some upload ↦ some (job, upload)
  ]
]

-- The columns of the source, which decode as texts and numbers where they are not null.
abbrev source_of : UploadRow → Result Error SourceColumns
source_of row = elim row.source [ none ↦ err database | some columns ↦ ok columns ]

abbrev schema_of : Option Str → Option Str → Result Error (Option SchemaReference)
schema_of (some schema_id) (some schema_version) =
    ok (some (record { schema_id = schema_id; schema_version = schema_version }))
schema_of none none = ok none
schema_of _ _ = err invalid_stored_job

-- `ok_or(Error::InvalidStoredJob)`
abbrev or_invalid_job : Option Str → Result Error Str
or_invalid_job none = err invalid_stored_job
or_invalid_job (some suffix) = ok suffix

unfoldable pub stored_document_identity :
    JobId → JobRow → UploadRow → Result Error StoredDocumentIdentity
unfolding strip_prefix new_document_id new_document_version
stored_document_identity id job row = do
  suffix ← or_invalid_job (strip_prefix (codes "job_") id.text)
  document_id ← map_err (λ _. invalid_stored_job) (new_document_id (codes "doc_" ++ suffix))
  columns ← source_of row
  version ← map_err (λ _. invalid_stored_upload) (new_document_version columns.source_digest)
  extraction ← schema_of job.extraction_schema_id job.extraction_schema_version
  ok (record { document_id = document_id; document_version = version; extraction = extraction })

unfoldable pub load_document_identity :
    StoredWorkScope → JobId → Database → Result Error (Option StoredDocumentIdentity)
unfolding job_source stored_document_identity
load_document_identity scope id db = elim (job_source scope id db) [
  | none ↦ ok none
  | some (job, row) ↦ stored_document_identity id job row >>= λ identity. ok (some identity)
]

unfoldable pub stored_accepted_source : UploadRow → Result Error StoredAcceptedSource
unfolding validate_accepted_source_locator
stored_accepted_source row = do
  columns ← source_of row
  page_count ← from_i64 columns.parser_inspection.page_count
  maximum_page_pixels ← from_i64 columns.parser_inspection.maximum_page_pixels
  total_page_pixels ← from_i64 columns.parser_inspection.total_page_pixels
  let source : StoredAcceptedSource = record {
    bucket = columns.source_bucket;
    object_name = columns.source_object_name;
    generation = columns.source_object_version;
    digest = columns.source_digest;
    content_length = columns.source_content_length;
    content_type = row.expected_content_type;
    page_count = page_count;
    maximum_page_pixels = maximum_page_pixels;
    total_page_pixels = total_page_pixels;
    page_geometries = columns.parser_inspection.page_geometries;
    parser_profile = columns.parser_inspection.profile;
    parser_version = columns.parser_inspection.version;
  }
  validate_accepted_source_locator source
  ok source

unfoldable pub load_accepted_source :
    StoredWorkScope → JobId → Database → Result Error (Option StoredAcceptedSource)
unfolding job_source stored_accepted_source
load_accepted_source scope id db = elim (job_source scope id db) [
  | none ↦ ok none
  | some (job, row) ↦ stored_accepted_source row >>= λ source. ok (some source)
]
