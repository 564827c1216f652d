-- ===== src/Store/Artifacts.antt =====
-- The checks of page artifacts in crates/ocr-store/src/lib.rs.
pub mod Batches
pub mod Tests
use document_intelligence.Base.{
  ℕ, ◌*◌, Bool, true, false, ◌&&◌, ◌||◌, not, List, [], ◌∷◌, if◌then◌else◌, ltb, leb, ◌==◌, within,
  length, map, Result, ok, err, ◌>>=◌, ◌>>◌, reject_if, sort_by_key,
}
use document_intelligence.Base.Text.{Str, len, is_empty, str_eq}
use document_intelligence.Domain.Ids.{JobId}
use document_intelligence.PageWorkflow.{
  PageWorkflow, PageTask, maximum_page_count, is_successful_task, activity_key,
}
use document_intelligence.Store.Values.{
  Error, invalid_stored_page_artifact, within_i64, StoredPageArtifact,
}
use document_intelligence.Store.Validation.{valid_object_version, valid_digest}

-- `MAXIMUM_DOCUMENT_RESULT_BYTES` of crates/ocr-domain/src/lib.rs
abbrev pub maximum_document_result_bytes : ℕ
maximum_document_result_bytes = 64 * 1024 * 1024

unfoldable pub validate_page_artifact : StoredPageArtifact → Result Error (Unit {0})
unfolding len valid_object_version valid_digest
validate_page_artifact artifact =
    reject_if
      (not (within 1 maximum_page_count artifact.page)
        || (not (within 1 10 artifact.attempt)
            || (is_empty artifact.activity_key
                || (ltb 160 (len artifact.activity_key)
                    || (ltb (len artifact.object_bucket) 3
                        || (ltb 222 (len artifact.object_bucket)
                            || (is_empty artifact.object_name
                                || (ltb 1024 (len artifact.object_name)
                                    || (not (valid_object_version artifact.object_version)
                                        || (not (
                                              within_i64 1 maximum_document_result_bytes
                                                artifact.content_length)
                                            || not (valid_digest artifact.object_digest)))))))))))
      invalid_stored_page_artifact

-- The task that an artifact claims to be the product of.
abbrev pub task_of : StoredPageArtifact → PageTask
task_of artifact = record {
  page = artifact.page;
  attempt = artifact.attempt;
  activity_key = artifact.activity_key;
}

-- The body of the loop of `validate_page_artifact_batch`.
unfoldable pub validate_batch_member :
    JobId → PageWorkflow → StoredPageArtifact → Result Error (Unit {0})
unfolding validate_page_artifact str_eq activity_key is_successful_task
validate_batch_member job_id workflow artifact = do
  validate_page_artifact artifact
  reject_if
      (not (str_eq artifact.activity_key (activity_key job_id artifact.page artifact.attempt)))
      invalid_stored_page_artifact
  reject_if (not (is_successful_task workflow (task_of artifact))) invalid_stored_page_artifact

unfoldable pub validate_batch_members :
    JobId → PageWorkflow → List StoredPageArtifact → Result Error (Unit {0})
unfolding validate_batch_member
validate_batch_members job_id workflow [] = ok tt
validate_batch_members job_id workflow (artifact ∷ artifacts) =
    let rest = validate_batch_members job_id workflow artifacts in
    validate_batch_member job_id workflow artifact >> rest

-- `pages.windows(2).any(|pages| pages[0] == pages[1])`
unfoldable pub repeats_neighbour : List ℕ → Bool
repeats_neighbour [] = false
repeats_neighbour (a ∷ []) = false
repeats_neighbour (a ∷ b ∷ pages) = a == b || repeats_neighbour (b ∷ pages)

abbrev pub page_of : StoredPageArtifact → ℕ
page_of artifact = artifact.page

abbrev pub itself : ℕ → ℕ
itself n = n

unfoldable pub validate_page_artifact_batch :
    JobId → PageWorkflow → List StoredPageArtifact → Result Error (Unit {0})
unfolding validate_batch_members repeats_neighbour sort_by_key
validate_page_artifact_batch job_id workflow artifacts = do
  reject_if (ltb 64 (length artifacts)) invalid_stored_page_artifact
  validate_batch_members job_id workflow artifacts
  reject_if (repeats_neighbour (sort_by_key itself (map page_of artifacts)))
      invalid_stored_page_artifact
