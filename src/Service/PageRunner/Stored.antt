-- ===== src/Service/PageRunner/Stored.antt =====
-- The runner of crates/ocr-service/src/page_runner.rs over the relational store of
-- crates/ocr-store/src/lib.rs: the store has what the runner relies on.
pub mod Tests
use mathlib.Core.List.{Permᴰ}
use document_intelligence.Base.{
  ℕ, ◌≡◌, ◌≢◌, ◌⊎◌, inl, inr, refl, sym, ap, subst, ◌∙◌, List, Option, none, some, arith, Result,
  ok, err, ok_injective, Option-cases,
}
use document_intelligence.Domain.Errors as Domain
use document_intelligence.Domain.Ids.{JobId}
use document_intelligence.Domain.SemanticMemory.{pos}
use document_intelligence.PageWorkflow.{PageWorkflow, PageTask, try_from}
use document_intelligence.PageWorkflow.Invariant.{IsValid, try_from_iff}
use document_intelligence.Temporal.Activities.{PageRunnerOutcome, PageRunnerError}
use document_intelligence.Service.PageRunner.{
  PageStore, CheckpointedPageRunner, new_page_runner, run_once,
}
use document_intelligence.Service.PageRunner.Outcomes.{Outcome}
use document_intelligence.Service.PageRunner.Rounds.{tasks_of}
use document_intelligence.Service.PageRunner.Errors.{Reliable, run_once-no_domain}
use document_intelligence.Store.Values.{
  Error, StoredWorkScope, StoredPageWorkflow, StoredPageArtifact, SavePageWorkflowOutcome, saved,
}
use document_intelligence.Store.Tables.{Database, PageWorkflowRow, find_row}
use document_intelligence.Store.Transactions.{
  Leaves, Leaves-end, Leaves-validated, Leaves-found, Leaves-branch, Leaves-commit,
}
use document_intelligence.Store.PageWorkflows.{
  has_workflow, next_row, stored_page_workflow, load_page_workflow, write_workflow,
  save_page_workflow_with_artifacts,
}

module _ (written_len stored_len : PageWorkflow → ℕ) where
  -- A decoded row has the checkpoint of the row, which is valid.
  decoded_workflow :
      (row : PageWorkflowRow) (stored : StoredPageWorkflow)
      → stored_page_workflow written_len stored_len row ≡ ok stored
      → (stored.workflow ≡ row.checkpoint) × IsValid stored.workflow
  unfolding stored_page_workflow
  decoded_workflow row stored e = elim (try_from_iff row.checkpoint).1 [
    | inl t ↦
        (let same : stored.workflow ≡ row.checkpoint = ground (arith, t, e) in
          (same, subst IsValid (sym same) ((try_from_iff row.checkpoint).0.0 t)))
    | inr t ↦ absurd (ground (arith, t, e))
  ]

module _ (written_len stored_len : PageWorkflow → ℕ) (scope : StoredWorkScope) (id : JobId) where
  -- The store as the runner of one job calls it.
  abbrev pub page_store : PageStore Database Error StoredPageArtifact
  page_store = record {
    load_page_workflow = λ db. (db, load_page_workflow written_len stored_len scope id db);
    save_page_workflow_with_artifacts = λ revision w artifacts db.
        save_page_workflow_with_artifacts written_len stored_len scope id (pos revision) w artifacts
          db;
  }

  -- A save returns the workflow that it was given.
  abbrev Returns : PageWorkflow → Database → Result Error SavePageWorkflowOutcome → Type 0
  Returns w after (ok (saved stored)) = stored.workflow ≡ w
  Returns w after _ = Unit

  save-Returns :
      (revision : ℕ) (w : PageWorkflow) (artifacts : List StoredPageArtifact) (db : Database)
      → Leaves (Returns w) (
          save_page_workflow_with_artifacts written_len stored_len scope id
            (pos revision)
            w
            artifacts
            db)
  unfolding save_page_workflow_with_artifacts write_workflow
  save-Returns revision w artifacts db =
      let P = Returns w in
      Leaves-branch P _ _ _ (λ t. Leaves-end P _ _ tt)
        λ t.
          Leaves-validated P _ _ _ (λ x. tt)
            λ v.
              Leaves-validated P _ _ _ (λ x. tt)
                λ v.
                  Leaves-found P _ _ _ (λ e. Leaves-end P _ _ tt)
                    λ row e.
                      Leaves-branch P _ _ _ (λ t. Leaves-end P _ _ tt)
                        λ t.
                          Leaves-found P _ _ _ (λ e. Leaves-end P _ _ tt)
                            λ rows d.
                              Leaves-found P _ _ _ (λ e. Leaves-end P _ _ tt)
                                λ current d.
                                  Leaves-commit P _ _ _ _ (λ x. tt)
                                    (λ stored e.
                                      (decoded_workflow written_len stored_len (next_row w current)
                                        stored e).0)

  loads-IsValid :
      (db : Database) (stored : StoredPageWorkflow)
      → load_page_workflow written_len stored_len scope id db ≡ ok (some stored)
      → IsValid stored.workflow
  unfolding load_page_workflow
  loads-IsValid db stored e =
      elim (Option-cases (find_row (has_workflow scope id) db.page_workflows)) [
        | inl none_ ↦ absurd (ground (arith, none_, e))
        | inr (row, found) ↦
            (decoded_workflow written_len stored_len row stored (ground (arith, found, e))).1
      ]

  pub page_store-Reliable :
      (process_all : List PageTask → Database → Database × List (Outcome StoredPageArtifact))
      → ((ts : List PageTask) (db : Database) → Permᴰ ts (tasks_of (process_all ts db).1))
      → Reliable page_store process_all
  page_store-Reliable process_all each = record {
    loads_valid = loads-IsValid;
    saves_given = λ revision w artifacts db stored e.
        subst
          (Returns w
            (save_page_workflow_with_artifacts written_len stored_len scope id (pos revision) w
              artifacts db).0)
          e (save-Returns revision w artifacts db).holds;
    processes_each = each;
  }

  -- A round of the runner on the relational store never fails with an error of the domain, where
  -- every task that is processed has one outcome.
  pub stored_round-no_domain :
      (process_all : List PageTask → Database → Database × List (Outcome StoredPageArtifact))
      (runner : CheckpointedPageRunner)
      → ((ts : List PageTask) (db : Database) → Permᴰ ts (tasks_of (process_all ts db).1))
      → (batch_size concurrency : ℕ)
      → ◌≡◌ {A = Result (PageRunnerError Error) CheckpointedPageRunner}
          (new_page_runner batch_size concurrency)
          (ok runner)
      → (db : Database) (e : Domain.Error)
      → (run_once page_store process_all runner db).1 ≢ err (PageRunnerError.domain e)
  stored_round-no_domain process_all runner each =
      run_once-no_domain page_store process_all runner (page_store-Reliable process_all each)
