-- ===== src/Store/PageWorkflows/Tests.antt =====
-- A stored workflow of two pages and two workers that save it from the same revision.
use document_intelligence.Base.{
  ℕ, ◌≡◌, ◌≢◌, refl, [], ◌∷◌, false, true, some, arith, ok, sort_by_key,
}
use document_intelligence.Base.Text.{codes, str_eq_iff, str_eq}
use document_intelligence.Domain.Ids.{JobId}
use document_intelligence.Domain.SemanticMemory.{pos}
use document_intelligence.PageWorkflow.{PageWorkflow, running, succeeded, pending, try_from}
use document_intelligence.PageWorkflow.Invariant.{IsValid}
use document_intelligence.Store.Values.{StoredPageWorkflow, saved}
use document_intelligence.Store.Artifacts.{
  validate_page_artifact_batch, validate_batch_members, repeats_neighbour,
}
use document_intelligence.Store.Tables.{Database, PageWorkflowRow}
use document_intelligence.Store.Transactions.{validated, found, branch, commit}
use document_intelligence.Store.PageWorkflows.{
  save_page_workflow_with_artifacts, load_page_workflow, write_workflow, serialize_page_workflow,
  stored_page_workflow, insert_artifacts,
}
use document_intelligence.Store.PageWorkflows.Revisions.{creates, saves, run}
use document_intelligence.Store.PageWorkflows.Saves.{save_once, save-current}
use document_intelligence.Store.Tests.{scope, id_of_job, empty}

abbrev json_len : PageWorkflow → ℕ
json_len workflow = 100

abbrev first_page_runs : PageWorkflow
first_page_runs = record {
  job_id = id_of_job;
  max_attempts = 3;
  pages = running 1 ∷ pending 0 ∷ [];
  cancelled = false;
}

abbrev first_page_done : PageWorkflow
first_page_done = record first_page_runs { pages = succeeded 1 ∷ pending 0 ∷ [] }

abbrev row : PageWorkflowRow
row = record { job_id = id_of_job; scope = scope; revision = 4; checkpoint = first_page_runs }

abbrev db : Database
db = record empty { page_workflows = row ∷ [] }

abbrev next : StoredPageWorkflow
next = record { workflow = first_page_done; revision = 5 }

save_once_example :
    (save_page_workflow_with_artifacts json_len json_len scope id_of_job
      (pos 4)
      first_page_runs
      []
      (run json_len json_len
        (save_page_workflow_with_artifacts json_len json_len scope id_of_job
          (pos 4)
          first_page_done
          []
          db).0
        (creates scope id_of_job first_page_runs
          ∷ saves scope id_of_job (pos 5) first_page_done []
          ∷ []))).1
    ≢ ok (saved next)
unfolding save_page_workflow_with_artifacts write_workflow found branch validated commit
    insert_artifacts validate_page_artifact_batch validate_batch_members repeats_neighbour
    sort_by_key serialize_page_workflow stored_page_workflow try_from str_eq
save_once_example =
    save_once json_len json_len scope id_of_job 4 db
      (creates scope id_of_job first_page_runs
        ∷ saves scope id_of_job (pos 5) first_page_done []
        ∷ [])
      first_page_done first_page_runs [] [] next refl next

first_page_done-IsValid : IsValid first_page_done
first_page_done-IsValid = record {
  some_attempts = omega arith;
  few_attempts = omega arith;
  some_pages = omega arith;
  few_pages = omega arith;
  well_formed = ((omega arith, omega arith), (omega arith, tt));
}

abbrev second_job : JobId
second_job = record { text = codes "job_2" }

is_second : second_job.text ≢ id_of_job.text
unfolding str_eq
is_second e =
    let same : str_eq second_job.text id_of_job.text ≡ true =
      (str_eq_iff second_job.text id_of_job.text).1 e in
    ground arith

save-current_example :
    let (after, r) =
      save_page_workflow_with_artifacts json_len json_len scope id_of_job
        (pos 4)
        first_page_done
        []
        db in
    (r ≡ ok (saved next))
    × (load_page_workflow json_len json_len scope id_of_job after ≡ ok (some next))
    × (load_page_workflow json_len json_len scope second_job after
        ≡ load_page_workflow json_len json_len scope second_job db)
unfolding str_eq
save-current_example =
    save-current json_len json_len scope id_of_job 4 db first_page_done row scope second_job refl
      refl refl first_page_done-IsValid (omega arith, omega arith) (omega arith, omega arith)
      is_second
