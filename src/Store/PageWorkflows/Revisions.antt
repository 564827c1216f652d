-- ===== src/Store/PageWorkflows/Revisions.antt =====
-- Sequences of calls on the stored page workflows of crates/ocr-store/src/lib.rs, by any number of
-- processes: the revision of a row never goes back.
use document_intelligence.Base.{
  ℕ, ◌≤◌, ◌≡◌, ◌⊎◌, inl, inr, refl, ap, List, [], ◌∷◌, ◌++◌, some, arith, Result,
}
use document_intelligence.Domain.Ids.{JobId}
use document_intelligence.Domain.SemanticMemory.{I64, pos, negsuc}
use document_intelligence.PageWorkflow.{PageWorkflow}
use document_intelligence.Store.Values.{Error, StoredWorkScope, StoredPageArtifact}
use document_intelligence.Store.Tables.{
  Database, PageWorkflowRow, find_row, update_row, find_row-append, find_row-update_row,
}
use document_intelligence.Store.Transactions.{
  Leaves, Leaves-end, Leaves-validated, Leaves-decoded, Leaves-found, Leaves-branch, Leaves-commit,
  found,
}
use document_intelligence.Store.PageWorkflows.{
  has_workflow, first_row, next_row, create_page_workflow, existing_workflow, started,
  write_workflow, save_page_workflow_with_artifacts,
}

pub data WorkflowCall : Type 0 where
  creates : StoredWorkScope → JobId → PageWorkflow → WorkflowCall
  saves : StoredWorkScope → JobId → I64 → PageWorkflow → List StoredPageArtifact → WorkflowCall

-- The row of a job has come to a revision.
abbrev pub IsFrom : StoredWorkScope → JobId → ℕ → List PageWorkflowRow → Type 0
IsFrom scope id n rows =
    (row : PageWorkflowRow) × (find_row (has_workflow scope id) rows ≡ some row)
    × (n ≤ row.revision)

module _ (written_len stored_len : PageWorkflow → ℕ) where
  unfoldable pub step : Database → WorkflowCall → Database
  unfolding create_page_workflow save_page_workflow_with_artifacts
  step db (creates scope id workflow) =
      (create_page_workflow written_len stored_len scope id workflow db).0
  step db (saves scope id expected workflow artifacts) =
      (save_page_workflow_with_artifacts written_len stored_len scope id expected workflow artifacts
        db).0

  unfoldable pub run : Database → List WorkflowCall → Database
  unfolding step
  run db [] = db
  run db (call ∷ calls) = run (step db call) calls

module _ (scope : StoredWorkScope) (id : JobId) (n : ℕ) where
  IsFrom-update :
      (s : StoredWorkScope) (i : JobId) (workflow : PageWorkflow) (rows : List PageWorkflowRow)
      (other : PageWorkflowRow)
      → find_row (has_workflow s i) rows ≡ some other
      → IsFrom scope id n rows
      → IsFrom scope id n (update_row (has_workflow s i) (next_row workflow) rows)
  IsFrom-update s i workflow rows other e (row, found, low) = updated (
      find_row-update_row (has_workflow scope id) (has_workflow s i) (next_row workflow) rows row
        other found e refl)
    where
      updated :
          (find_row (has_workflow scope id) (update_row (has_workflow s i) (next_row workflow) rows)
              ≡ some row)
            ⊎ (other ≡ row)
              × (find_row
                    (has_workflow scope id)
                    (update_row (has_workflow s i) (next_row workflow) rows)
                  ≡ some (next_row workflow other))
          → IsFrom scope id n (update_row (has_workflow s i) (next_row workflow) rows)
      updated (inl kept) = (row, kept, low)
      updated (inr (same, written)) =
          (next_row workflow other, written, omega (arith, ap (λ r. r.revision) same))

module _ (written_len stored_len : PageWorkflow → ℕ) (scope : StoredWorkScope) (id : JobId) (n : ℕ)
    (db : Database) (from : IsFrom scope id n db.page_workflows) where
  abbrev Q : {A : Type 0} → Database → Result Error A → Type 0
  Q after r = IsFrom scope id n after.page_workflows

  existing-Leaves :
      (s : StoredWorkScope) (i : JobId) (workflow : PageWorkflow)
      → Leaves Q (existing_workflow written_len stored_len s i workflow db)
  unfolding existing_workflow
  existing-Leaves s i workflow =
      Leaves-found Q _ _ _ (λ e. Leaves-end Q _ _ from)
        λ row e. Leaves-commit Q _ _ _ _ (λ x. from) (λ x y. from)

  create-Leaves :
      (s : StoredWorkScope) (i : JobId) (workflow : PageWorkflow)
      → Leaves Q (create_page_workflow written_len stored_len s i workflow db)
  unfolding create_page_workflow started
  create-Leaves s i workflow =
      let existing = existing-Leaves s i workflow in
      let (row, found, low) = from in
      let appended : IsFrom scope id n (db.page_workflows ++ first_row s i workflow ∷ []) =
        (row, find_row-append (has_workflow scope id) db.page_workflows _ row found, low) in
      Leaves-branch Q _ _ _ (λ t. Leaves-end Q _ _ from)
        λ t.
          Leaves-validated Q _ _ _ (λ x. from)
            λ v.
              Leaves-found Q _ _ _ (λ e. existing)
                λ job e.
                  Leaves-branch Q _ _ _ (λ t. existing)
                    λ t.
                      Leaves-decoded Q _ _ _ (λ x. from)
                        λ stored d.
                          Leaves-branch Q _ _ _ (λ t. Leaves-end Q _ _ appended)
                            λ t.
                              Leaves-found Q _ _ _ (λ e. Leaves-end Q _ _ from)
                                λ job e.
                                  Leaves-branch Q _ _ _ (λ c. Leaves-end Q _ _ appended)
                                    (λ c. Leaves-end Q _ _ from)

  save-Leaves :
      (s : StoredWorkScope) (i : JobId) (expected : I64) (workflow : PageWorkflow)
      (artifacts : List StoredPageArtifact)
      → Leaves Q (
          save_page_workflow_with_artifacts written_len stored_len s i expected workflow artifacts
            db)
  unfolding save_page_workflow_with_artifacts write_workflow
  save-Leaves s i (negsuc m) workflow artifacts = Leaves-end Q _ _ from
  save-Leaves s i (pos m) workflow artifacts =
      Leaves-branch Q _ _ _ (λ t. Leaves-end Q _ _ from)
        λ t.
          Leaves-validated Q _ _ _ (λ x. from)
            λ v.
              Leaves-validated Q _ _ _ (λ x. from)
                λ v.
                  Leaves-found Q _ _ _ (λ e. Leaves-end Q _ _ from)
                    λ row e.
                      Leaves-branch Q _ _ _ (λ t. Leaves-end Q _ _ from)
                        λ t.
                          Leaves-found Q _ _ _ (λ e. Leaves-end Q _ _ from)
                            λ rows d.
                              Leaves-found Q _ _ _ (λ e. Leaves-end Q _ _ from)
                                λ current d.
                                  Leaves-commit Q _ _ _ _ (λ x. from)
                                    (λ x y.
                                      IsFrom-update scope id n s i workflow db.page_workflows row e
                                        from)

module _ (written_len stored_len : PageWorkflow → ℕ) (scope : StoredWorkScope) (id : JobId)
    (n : ℕ) where
  pub run-IsFrom :
      (db : Database) (calls : List WorkflowCall)
      → IsFrom scope id n db.page_workflows
      → IsFrom scope id n (run written_len stored_len db calls).page_workflows
  unfolding run step
  run-IsFrom db [] from = from
  run-IsFrom db (creates s i workflow ∷ calls) from =
      run-IsFrom (step written_len stored_len db (creates s i workflow)) calls
        (create-Leaves written_len stored_len scope id n db from s i workflow).holds
  run-IsFrom db (saves s i expected workflow artifacts ∷ calls) from =
      run-IsFrom (step written_len stored_len db (saves s i expected workflow artifacts)) calls
        (save-Leaves written_len stored_len scope id n db from s i expected workflow
          artifacts).holds
