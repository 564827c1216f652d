-- ===== src/Store/PageWorkflows.antt =====
-- The stored page workflows of crates/ocr-store/src/lib.rs, with their revisions and the artifacts
-- of their pages. The length of a workflow as JSON text is a parameter, as the program writes it
-- and as the database gives it back.
pub mod Revisions
pub mod Saves
pub mod Tests
use document_intelligence.Base.{
  ℕ, suc, ◌+◌, Bool, true, false, ◌&&◌, ◌||◌, not, List, [], ◌∷◌, ◌++◌, Option, none, some, map,
  if◌then◌else◌, ltb, leb, ◌==◌, any, Result, ok, err, ◌>>=◌, ◌>>◌, reject_if, map_err, sort_by_key,
}
use document_intelligence.Base.Text.{Str, str_eq}
use document_intelligence.Domain.Errors.{JobState, accepted, processing, cancelling, cancelled}
use document_intelligence.Domain.Ids.{JobId}
use document_intelligence.Domain.SemanticMemory.{I64, pos, negsuc}
use document_intelligence.PageWorkflow.{PageWorkflow, PageProgress, PageWorkflowStatus, status}
use document_intelligence.PageWorkflow as Workflow
use document_intelligence.Store.Values.{
  Error, database, invalid_stored_page_workflow, StoredWorkScope, scope_eq, StoredPageWorkflow,
  StoredPageArtifact, CreatePageWorkflowOutcome, SavePageWorkflowOutcome,
}
use document_intelligence.Store.Artifacts.{
  validate_page_artifact, validate_page_artifact_batch, page_of,
}
use document_intelligence.Store.Tables.{
  Database, JobRow, PageWorkflowRow, PageArtifactRow, find_row, update_row,
}
use document_intelligence.Store.Transactions.{validated, decoded, found, branch, commit}
use document_intelligence.Store.Jobs.{has_job, set_status}

abbrev pub has_workflow : StoredWorkScope → JobId → PageWorkflowRow → Bool
has_workflow scope id row = scope_eq row.scope scope && str_eq row.job_id.text id.text

-- the derived `PartialEq`
abbrev progress_eq : PageProgress → PageProgress → Bool
progress_eq (PageProgress.pending m) (PageProgress.pending n) = m == n
progress_eq (PageProgress.running m) (PageProgress.running n) = m == n
progress_eq (PageProgress.succeeded m) (PageProgress.succeeded n) = m == n
progress_eq (PageProgress.exhausted m) (PageProgress.exhausted n) = m == n
progress_eq (PageProgress.permanently_failed m) (PageProgress.permanently_failed n) = m == n
progress_eq _ _ = false

abbrev pages_eq : List PageProgress → List PageProgress → Bool
pages_eq [] [] = true
pages_eq (p ∷ ps) (q ∷ qs) = progress_eq p q && pages_eq ps qs
pages_eq _ _ = false

abbrev bool_eq : Bool → Bool → Bool
bool_eq true b = b
bool_eq false b = not b

unfoldable pub workflow_eq : PageWorkflow → PageWorkflow → Bool
workflow_eq a b =
    str_eq a.job_id.text b.job_id.text
    && ((a.max_attempts == b.max_attempts)
        && (pages_eq a.pages b.pages && bool_eq a.cancelled b.cancelled))

abbrev pub is_cancelled : PageWorkflowStatus → Bool
is_cancelled PageWorkflowStatus.cancelled = true
is_cancelled _ = false

-- The jobs that may get a workflow.
abbrev pub may_start : Bool → JobState → Bool
may_start checkpoint accepted = true
may_start checkpoint processing = true
may_start checkpoint cancelling = checkpoint
may_start checkpoint cancelled = checkpoint
may_start checkpoint _ = false

abbrev pub is_startable : JobState → Bool
is_startable accepted = true
is_startable processing = true
is_startable _ = false

abbrev first_row : StoredWorkScope → JobId → PageWorkflow → PageWorkflowRow
first_row scope id workflow = record {
  job_id = id;
  scope = scope;
  revision = 0;
  checkpoint = workflow;
}

abbrev to_artifact_row : StoredWorkScope → JobId → StoredPageArtifact → PageArtifactRow
to_artifact_row scope id artifact = record { job_id = id; scope = scope; artifact = artifact }

-- The unique constraints of an artifact's row with another.
abbrev same_artifact : PageArtifactRow → PageArtifactRow → Bool
same_artifact new row =
    str_eq row.job_id.text new.job_id.text
    && ((row.artifact.page == new.artifact.page)
        || str_eq row.artifact.activity_key new.artifact.activity_key)

-- An insert of rows fails when one of them clashes with a row or with one inserted before it.
unfoldable pub insert_artifacts :
    List PageArtifactRow → List PageArtifactRow → Option (List PageArtifactRow)
insert_artifacts [] table = some table
insert_artifacts (new ∷ rows) table =
    let rest = insert_artifacts rows (table ++ new ∷ []) in
    if any (same_artifact new) table then none else rest

abbrev pub next_row : PageWorkflow → PageWorkflowRow → PageWorkflowRow
next_row workflow row = record row { checkpoint = workflow; revision = row.revision + 1 }

module _ (written_len stored_len : PageWorkflow → ℕ) where
  unfoldable pub serialize_page_workflow : PageWorkflow → Result Error (Unit {0})
  serialize_page_workflow workflow =
      reject_if (written_len workflow == 0 || ltb 26_2144 (written_len workflow))
        invalid_stored_page_workflow

  -- The decoding of a checkpoint is that of a raw workflow.
  unfoldable pub stored_page_workflow : PageWorkflowRow → Result Error StoredPageWorkflow
  stored_page_workflow row = do
    reject_if (stored_len row.checkpoint == 0 || ltb 26_2144 (stored_len row.checkpoint))
        invalid_stored_page_workflow
    workflow ← map_err (λ _. invalid_stored_page_workflow) (Workflow.try_from row.checkpoint)
    ok (record { workflow = workflow; revision = row.revision })

  -- What follows an insert that inserted nothing.
  unfoldable pub existing_workflow :
      StoredWorkScope
      → JobId
      → PageWorkflow
      → Database
      → Database × Result Error CreatePageWorkflowOutcome
  existing_workflow scope id workflow db =
      found (find_row (has_workflow scope id) db.page_workflows)
        (db, ok CreatePageWorkflowOutcome.not_found)
        λ row.
          commit db db
            (λ stored.
              if workflow_eq stored.workflow workflow
              then CreatePageWorkflowOutcome.existing stored
              else CreatePageWorkflowOutcome.conflict)
            (stored_page_workflow row)

  -- What follows an inserted row: a job that is not cancelled is processing from here on.
  unfoldable pub started :
      StoredWorkScope
      → JobId
      → Bool
      → Database
      → Database
      → StoredPageWorkflow
      → Database × Result Error CreatePageWorkflowOutcome
  started scope id checkpoint before db stored =
      branch checkpoint (db, ok (CreatePageWorkflowOutcome.created stored))
        (found (find_row (has_job scope id) db.jobs) (before, err invalid_stored_page_workflow)
          λ row.
            branch (is_startable row.status)
              (set_status scope id processing db, ok (CreatePageWorkflowOutcome.created stored))
              (before, err invalid_stored_page_workflow))

  unfoldable pub create_page_workflow :
      StoredWorkScope
      → JobId
      → PageWorkflow
      → Database
      → Database × Result Error CreatePageWorkflowOutcome
  create_page_workflow scope id workflow db =
      let checkpoint = is_cancelled (status workflow) in
      branch (not (str_eq workflow.job_id.text id.text)) (db, err invalid_stored_page_workflow)
        (validated db (serialize_page_workflow workflow) (
          found (find_row (λ row. has_job scope id row && may_start checkpoint row.status) db.jobs)
            (existing_workflow scope id workflow db)
            λ _.
              branch (any (λ row. str_eq row.job_id.text id.text) db.page_workflows)
                (existing_workflow scope id workflow db)
                (decoded db (stored_page_workflow (first_row scope id workflow)) λ stored.
                  started scope id checkpoint db
                    (record db {
                      page_workflows = db.page_workflows ++ first_row scope id workflow ∷ [];
                    })
                    stored)))

  unfoldable pub load_page_workflow :
      StoredWorkScope → JobId → Database → Result Error (Option StoredPageWorkflow)
  load_page_workflow scope id db = elim (find_row (has_workflow scope id) db.page_workflows) [
    | none ↦ ok none
    | some row ↦ stored_page_workflow row >>= λ stored. ok (some stored)
  ]

  -- The insert of the artifacts, where there are any, and the update of the row that must still
  -- have the revision.
  unfoldable pub write_workflow :
      StoredWorkScope
      → JobId
      → ℕ
      → PageWorkflow
      → List StoredPageArtifact
      → Database
      → Database × Result Error SavePageWorkflowOutcome
  write_workflow scope id revision workflow artifacts db =
      found (insert_artifacts (map (to_artifact_row scope id) artifacts) db.page_artifacts)
        (db, err database)
        λ rows.
          found
            (find_row (λ row. has_workflow scope id row && (row.revision == revision))
              db.page_workflows)
            (db, err invalid_stored_page_workflow)
            λ row.
              commit db
                (record db {
                  page_artifacts = rows;
                  page_workflows =
                      update_row (has_workflow scope id) (next_row workflow) db.page_workflows;
                })
                SavePageWorkflowOutcome.saved (stored_page_workflow (next_row workflow row))

  unfoldable pub save_page_workflow_with_artifacts :
      StoredWorkScope
      → JobId
      → I64
      → PageWorkflow
      → List StoredPageArtifact
      → Database
      → Database × Result Error SavePageWorkflowOutcome
  save_page_workflow_with_artifacts scope id (negsuc n) workflow artifacts db =
      (db, err invalid_stored_page_workflow)
  save_page_workflow_with_artifacts scope id (pos expected) workflow artifacts db =
      branch (not (str_eq workflow.job_id.text id.text)) (db, err invalid_stored_page_workflow)
        (validated db (validate_page_artifact_batch id workflow artifacts) (
          validated db (serialize_page_workflow workflow) (
            found (find_row (has_workflow scope id) db.page_workflows)
              (db, ok SavePageWorkflowOutcome.not_found)
              λ row.
                branch (not (row.revision == expected)) (db, ok SavePageWorkflowOutcome.conflict)
                  (write_workflow scope id expected workflow artifacts db))))

  unfoldable pub save_page_workflow :
      StoredWorkScope
      → JobId
      → I64
      → PageWorkflow
      → Database
      → Database × Result Error SavePageWorkflowOutcome
  save_page_workflow scope id expected workflow db =
      save_page_workflow_with_artifacts scope id expected workflow [] db

-- The decoding of the selected rows, which stops at the first that is refused.
unfoldable pub decode_artifacts : List PageArtifactRow → Result Error (List StoredPageArtifact)
decode_artifacts [] = ok []
decode_artifacts (row ∷ rows) =
    let rest = decode_artifacts rows in
    validate_page_artifact row.artifact >>= λ _. rest >>= λ artifacts. ok (row.artifact ∷ artifacts)

abbrev rows_of : StoredWorkScope → JobId → List PageArtifactRow → List PageArtifactRow
rows_of scope id [] = []
rows_of scope id (row ∷ rows) =
    if scope_eq row.scope scope && str_eq row.job_id.text id.text
    then row ∷ rows_of scope id rows
    else rows_of scope id rows

unfoldable pub load_page_artifacts :
    StoredWorkScope → JobId → Database → Result Error (List StoredPageArtifact)
load_page_artifacts scope id db =
    decode_artifacts
      (sort_by_key (λ row. page_of row.artifact) (rows_of scope id db.page_artifacts))
