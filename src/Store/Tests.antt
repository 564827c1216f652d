-- ===== src/Store/Tests.antt =====
-- Values for the tests of the store: a tenant, an upload, a job and an empty database.
use document_intelligence.Base.{[], ◌∷◌, none, some}
use document_intelligence.Base.Text.{Str, codes}
use document_intelligence.Domain.Errors.{JobState}
use document_intelligence.Domain.Ids.{JobId, UploadId, RequestDigest, IdempotencyKey}
use document_intelligence.Domain.SemanticMemory.{pos}
use document_intelligence.Store.Values.{
  StoredWorkScope, UploadState, CreateJob, StoredResultLocator, CommitResult,
  ParserInspectionMetadata,
}
use document_intelligence.Store.Tables.{Database, UploadRow, JobRow, EventRow, EventType}

abbrev pub scope : StoredWorkScope
scope = record {
  product_id = record { text = codes "product" };
  tenant_id = record { text = codes "tenant_1" };
}

abbrev pub id_of_job : JobId
id_of_job = record { text = codes "job_1" }

abbrev pub id_of_upload : UploadId
id_of_upload = record { text = codes "upl_1" }

-- The digest of the empty text.
abbrev pub empty_digest : Str
empty_digest = codes "sha256:e3b0c44298fc1c149afbf4c8996fb92427ae41e4649b934ca495991b7852b855"

abbrev pub key : IdempotencyKey
key = record { text = codes "key-0000-0000-0001" }

abbrev pub digest : RequestDigest
digest = record { text = empty_digest }

abbrev pub empty : Database
empty = record {
  uploads = [];
  upload_outbox = [];
  jobs = [];
  outbox = [];
  next_event_id = 1;
  page_workflows = [];
  page_artifacts = [];
  results = [];
  work_scopes = [];
}

abbrev pub inspecting_row : UploadRow
inspecting_row = record {
  upload_id = id_of_upload;
  scope = scope;
  idempotency_key = key;
  request_digest = digest;
  object_bucket = codes "quarantine";
  object_name = codes "upload_1";
  expected_content_type = codes "application/pdf";
  expected_content_length = pos 100;
  expected_digest = empty_digest;
  expires_at = 90;
  created_at = 10;
  state = UploadState.inspecting;
  object_version = some (codes "7");
  verified_content_type = some (codes "application/pdf");
  verified_content_length = some (pos 100);
  verified_digest = some empty_digest;
  uploaded_at = some 20;
  inspection_attempts = 1;
  inspection_lease_owner = some (codes "worker-1");
  inspection_lease_expires_at = some 200;
  source = none;
  rejection_reason = none;
}

abbrev pub inspection : ParserInspectionMetadata
inspection = record {
  page_count = pos 1;
  maximum_page_pixels = pos 100;
  total_page_pixels = pos 100;
  page_geometries = record { page = record { number = 1 }; width = 10; height = 10 } ∷ [];
  profile = codes "pdf";
  version = codes "1";
}

abbrev pub accepted_upload : UploadRow
accepted_upload = record inspecting_row {
  state = UploadState.accepted;
  inspection_lease_owner = none;
  inspection_lease_expires_at = none;
  source = some (record {
    source_bucket = codes "sources";
    source_object_name = codes "source_1";
    source_object_version = codes "3";
    source_digest = empty_digest;
    source_content_length = pos 100;
    parser_inspection = inspection;
  });
}

abbrev pub job_of : JobState → JobRow
job_of status = record {
  job_id = id_of_job;
  scope = scope;
  idempotency_key = key;
  request_digest = digest;
  upload_id = id_of_upload;
  webhook_subscription_id = none;
  extraction_schema_id = none;
  extraction_schema_version = none;
  status = status;
  created_at = 30;
}

abbrev pub request : CreateJob
request = record {
  job_id = id_of_job;
  tenant_id = scope.tenant_id;
  product_id = scope.product_id;
  idempotency_key = key;
  request_digest = digest;
  upload_id = id_of_upload;
  webhook_subscription_id = none;
  extraction = none;
}

abbrev pub locator : StoredResultLocator
locator = record {
  document_id = record { text = codes "doc_1" };
  document_version = record { text = empty_digest };
  object_bucket = codes "results";
  object_name = codes "result_1";
  object_version = codes "5";
  object_digest = empty_digest;
  content_length = pos 2;
}

abbrev pub commit_completed : CommitResult
commit_completed = record { terminal_state = JobState.completed; locator = locator }

abbrev pub event : EventRow
event = record {
  event_id = 1;
  scope = scope;
  job_id = id_of_job;
  event_type = EventType.accepted;
  created_at = 30;
  published_at = none;
  delivery_attempts = 1;
  delivery_lease_owner = some (codes "relay-1");
  delivery_lease_expires_at = some 200;
  dead_lettered_at = none;
}
