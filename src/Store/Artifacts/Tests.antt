-- ===== src/Store/Artifacts/Tests.antt =====
-- A batch with the artifact of one page, and the geometries of two pages.
use document_intelligence.Base.{
  ◌≡◌, ◌≤◌, ◌↔◌, refl, List, [], ◌∷◌, All, map, length, true, false, sort_by_key, IsDistinct,
  u32_max, u64_max,
}
use document_intelligence.Base.Text.{codes, str_eq, len}
use document_intelligence.Base.Text.Decimal.{decimal}
use document_intelligence.Domain.Geometry.{PageGeometry}
use document_intelligence.Domain.SemanticMemory.{pos}
use document_intelligence.PageWorkflow.{
  PageWorkflow, succeeded, pending, activity_key, is_successful_task, active_progress,
}
use document_intelligence.Store.Values.{StoredPageArtifact}
use document_intelligence.Store.Validation.{
  valid_page_geometries, valid_digest, valid_object_version,
}
use document_intelligence.Store.Geometries.{
  IsNumberedFrom, largest, total, valid_page_geometries_iff,
}
use document_intelligence.Store.Artifacts.{
  validate_page_artifact, validate_batch_member, validate_batch_members, repeats_neighbour,
  validate_page_artifact_batch, itself, page_of,
}
use document_intelligence.Store.Artifacts.Batches.{IsOf, validate_page_artifact_batch-IsOf}
use document_intelligence.Store.Tests.{id_of_job, empty_digest}

abbrev first_page_done : PageWorkflow
first_page_done = record {
  job_id = id_of_job;
  max_attempts = 3;
  pages = succeeded 1 ∷ pending 0 ∷ [];
  cancelled = false;
}

abbrev artifact : StoredPageArtifact
artifact = record {
  page = 1;
  attempt = 1;
  activity_key = codes "ocr-job-job_1-page-1-attempt-1";
  object_bucket = codes "pages";
  object_name = codes "page_1";
  object_version = codes "12";
  object_digest = empty_digest;
  content_length = pos 100;
}

validate_page_artifact_batch-IsOf_example :
    All (IsOf id_of_job first_page_done) (artifact ∷ [])
    × IsDistinct itself (map page_of (artifact ∷ []))
    × (length (artifact ∷ []) ≤ 64)
unfolding validate_page_artifact validate_batch_member validate_batch_members repeats_neighbour
    validate_page_artifact_batch sort_by_key len valid_digest valid_object_version str_eq
    activity_key decimal is_successful_task active_progress
validate_page_artifact_batch-IsOf_example =
    validate_page_artifact_batch-IsOf id_of_job first_page_done (artifact ∷ []) refl

abbrev geometries : List PageGeometry
geometries =
    record { page = record { number = 1 }; width = 20; height = 10 }
    ∷ record { page = record { number = 2 }; width = 10; height = 10 }
    ∷ []

valid_page_geometries_iff_example : (valid_page_geometries geometries 2 200 300 ≡ true) ↔ (
    (length geometries ≡ 2)
    × IsNumberedFrom 1 geometries
    × (largest geometries ≡ 200)
    × (total geometries ≡ 300)
    × (2 ≤ u32_max)
    × (300 ≤ u64_max))
valid_page_geometries_iff_example = valid_page_geometries_iff geometries 2 200 300
