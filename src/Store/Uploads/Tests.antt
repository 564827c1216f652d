-- ===== src/Store/Uploads/Tests.antt =====
-- An upload under inspection, an accepted one, and calls of a second worker on them.
use document_intelligence.Base.{◌≡◌, ◌≢◌, refl, List, [], ◌∷◌, some, true, All, arith}
use document_intelligence.Base.Text.{Str, codes, str_eq, str_eq_iff}
use document_intelligence.Domain.SemanticMemory.{pos}
use document_intelligence.Store.Values.{CreateUpload, RecordUpload, UploadRejectionReason}
use document_intelligence.Store.Tables.{Database, find_row}
use document_intelligence.Store.Uploads.{has_upload}
use document_intelligence.Store.Uploads.Calls.{UploadCall, creates, records, claims, rejects, run}
use document_intelligence.Store.Uploads.Invariant.{IsValid, run-IsValid}
use document_intelligence.Store.Uploads.Leases.{lease_protects, settled-for_good}
use document_intelligence.Store.Tests.{
  scope, id_of_upload, key, digest, empty_digest, empty, inspecting_row, accepted_upload,
}

abbrev reservation : CreateUpload
reservation = record {
  upload_id = id_of_upload;
  tenant_id = scope.tenant_id;
  product_id = scope.product_id;
  idempotency_key = key;
  request_digest = digest;
  object_bucket = codes "quarantine";
  object_name = codes "upload_1";
  expected_content_type = codes "application/pdf";
  expected_content_length = pos 100;
  expected_digest = empty_digest;
  expires_at = 90;
}

abbrev verification : RecordUpload
verification = record {
  object_version = codes "7";
  verified_content_type = codes "application/pdf";
  verified_content_length = pos 100;
  verified_digest = empty_digest;
}

abbrev other : Str
other = codes "worker-2"

abbrev second_worker : List UploadCall
second_worker =
    claims 100 scope id_of_upload other
    ∷ rejects 150 scope id_of_upload other UploadRejectionReason.malware_detected
    ∷ []

abbrev inspecting_db : Database
inspecting_db = record empty { uploads = inspecting_row ∷ [] }

abbrev accepted_db : Database
accepted_db = record empty { uploads = accepted_upload ∷ [] }

run-IsValid_example :
    All IsValid
      (run empty (
        creates 10 reservation
        ∷ records 20 20 scope id_of_upload verification
        ∷ second_worker)).uploads
run-IsValid_example =
    run-IsValid empty
      (creates 10 reservation ∷ records 20 20 scope id_of_upload verification ∷ second_worker) tt

-- The two workers have different names.
foreign : other ≢ codes "worker-1"
unfolding str_eq
foreign e =
    let same : str_eq other (codes "worker-1") ≡ true = (str_eq_iff other (codes "worker-1")).1 e in
    ground arith

lease_protects_example :
    find_row (has_upload scope id_of_upload) (run inspecting_db second_worker).uploads
    ≡ some inspecting_row
unfolding str_eq
lease_protects_example =
    lease_protects scope id_of_upload (codes "worker-1") 200 inspecting_row inspecting_db
      second_worker refl (record { state = refl; owner_is = refl; expiry_is = refl })
      ((λ e. (foreign, omega arith)), ((λ e. foreign), tt))

settled-for_good_example :
    find_row (has_upload scope id_of_upload) (run accepted_db second_worker).uploads
    ≡ some accepted_upload
unfolding str_eq
settled-for_good_example =
    settled-for_good scope id_of_upload accepted_upload accepted_db second_worker refl refl
