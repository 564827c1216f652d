-- ===== src/Store/Lifecycle/Steps.antt =====
-- What each call on the jobs of crates/ocr-store/src/lib.rs can do to the jobs and results.
use document_intelligence.Base.{
  ℕ, ◌≡◌, refl, sym, subst, Bool, true, false, any, List, [], ◌∷◌, ◌++◌, Option, none, some, arith,
  if◌then◌else◌, Result, ok,
}
use document_intelligence.Base.Text.{str_eq}
use document_intelligence.Domain.Errors.{JobState, processing, cancelled, validating}
use document_intelligence.Domain.JobLifecycle.{state_eq}
use document_intelligence.Domain.Ids.{JobId, WebhookSubscriptionId}
use document_intelligence.PageWorkflow.{PageWorkflow}
use document_intelligence.Store.Values.{Error, StoredWorkScope, CreateJob, CommitResult, StoredJob}
use document_intelligence.Store.Tables.{
  Database, JobRow, ResultRow, find_row, update_row, update_row_twice,
}
use document_intelligence.Store.Transactions.{
  Leaves, Leaves-end, Leaves-validated, Leaves-decoded, Leaves-found, Leaves-branch, Leaves-commit,
}
use document_intelligence.Store.WorkScopes.{register_work_scope}
use document_intelligence.Store.Jobs.{
  has_job, create, existing_job, accepted_job, emit, with_status, cancel, stored_job,
  complete_cancellation, is_final, set_status,
}
use document_intelligence.Store.Jobs.Results.{
  to_validating, notify, with_result, result_row, clashes, finish, commit_result,
}
use document_intelligence.Store.PageWorkflows.{create_page_workflow, existing_workflow, started}
use document_intelligence.Store.Lifecycle.{
  JobCall, creates, starts, cancels, completes, commits, Change, to_processing, to_cancelled,
  from_cancelling, to_final, step,
}

stored_job-state :
    (row : JobRow) (job : StoredJob) → stored_job row ≡ ok job → job.state ≡ row.status
unfolding stored_job
stored_job-state row job e = ground (arith, e)

module _ (P : List JobRow → List ResultRow → Type 0) (db : Database) where
  abbrev Q : {A : Type 0} → Database → Result Error A → Type 0
  Q after r = P after.jobs after.results

  abbrev Appends : Type 0
  Appends =
      (now : ℕ) (request : CreateJob)
      → any (λ row. str_eq row.job_id.text request.job_id.text) db.jobs ≡ false
      → P (db.jobs ++ accepted_job now request ∷ []) db.results

  abbrev Updates : Type 0
  Updates =
      (scope : StoredWorkScope) (id : JobId) (row : JobRow) (status : JobState)
      → find_row (has_job scope id) db.jobs ≡ some row
      → Change row.status status
      → is_final status ≡ false
      → P (update_row (has_job scope id) (with_status status) db.jobs) db.results

  abbrev Commits : Type 0
  Commits =
      (scope : StoredWorkScope) (id : JobId) (row : JobRow) (command : CommitResult)
      → find_row (has_job scope id) db.jobs ≡ some row
      → Change row.status command.terminal_state
      → is_final command.terminal_state ≡ true
      → any (clashes (result_row scope id command.locator)) db.results ≡ false
      → P (update_row (has_job scope id) (with_status command.terminal_state) db.jobs)
          (db.results ++ result_row scope id command.locator ∷ [])

  existing_job-Leaves :
      (request : CreateJob) → P db.jobs db.results → Leaves Q (existing_job request db)
  unfolding existing_job
  existing_job-Leaves request same =
      Leaves-found Q _ _ _ (λ e. Leaves-end Q _ _ same)
        λ row e.
          Leaves-branch Q _ _ _ (λ t. Leaves-end Q _ _ same)
            λ t. Leaves-commit Q _ _ _ _ (λ x. same) (λ x y. same)

  create-Leaves :
      (now : ℕ) (request : CreateJob)
      → P db.jobs db.results
      → Appends
      → Leaves Q (create now request db)
  unfolding create emit register_work_scope
  create-Leaves now request same new =
      Leaves-found Q _ _ _ (λ e. existing_job-Leaves request same)
        λ row e.
          Leaves-branch Q _ _ _ (λ t. existing_job-Leaves request same)
            λ t.
              Leaves-branch Q _ _ _ (λ t. Leaves-end Q _ _ same)
                λ t. Leaves-commit Q _ _ _ _ (λ x. same) (λ x y. new now request t)

  cancel-Leaves :
      (now : ℕ) (scope : StoredWorkScope) (id : JobId)
      → P db.jobs db.results
      → Updates
      → Leaves Q (cancel now scope id db)
  unfolding cancel emit register_work_scope
  cancel-Leaves now scope id same updates =
      Leaves-found Q _ _ _ (λ e. Leaves-end Q _ _ same)
        λ row e.
          Leaves-branch Q _ _ _
            (λ t.
              Leaves-commit Q _ _ _ _ (λ x. same)
                (λ x y. updates scope id row cancelled e (to_cancelled row.status t) refl))
            (λ t. Leaves-commit Q _ _ _ _ (λ x. same) (λ x y. same))

  complete-Leaves :
      (scope : StoredWorkScope) (id : JobId)
      → P db.jobs db.results
      → Updates
      → Leaves Q (complete_cancellation scope id db)
  unfolding complete_cancellation
  complete-Leaves scope id same updates =
      Leaves-found Q _ _ _ (λ e. Leaves-end Q _ _ same)
        λ row e.
          Leaves-decoded Q _ _ _ (λ x. same)
            λ job d.
              Leaves-branch Q _ _ _ (λ t. Leaves-end Q _ _ same)
                λ t.
                  Leaves-branch Q _ _ _
                    (λ c.
                      Leaves-commit Q _ _ _ _ (λ x. same)
                        (λ x y.
                          updates scope id row cancelled e
                            (from_cancelling row.status
                              (ground (arith, c, stored_job-state row job d)))
                            refl))
                    (λ c. Leaves-end Q _ _ same)

  abbrev Committed : StoredWorkScope → JobId → CommitResult → Type 0
  Committed scope id command =
      P (update_row (has_job scope id) (with_status command.terminal_state) db.jobs)
        (db.results ++ result_row scope id command.locator ∷ [])

  twice :
      (scope : StoredWorkScope) (id : JobId) (command : CommitResult)
      → Committed scope id command
      → P
          (update_row
            (has_job scope id)
            (with_status command.terminal_state)
            (set_status scope id validating db).jobs)
          (db.results ++ result_row scope id command.locator ∷ [])
  twice scope id command h =
      subst (λ jobs. P jobs (db.results ++ result_row scope id command.locator ∷ []))
        (sym (
          update_row_twice (has_job scope id) (with_status command.terminal_state)
            (with_status validating) db.jobs (λ x. refl)))
        h

  abbrev After : Database → Type 0
  After after = P after.jobs after.results

  -- The status in between is not seen from outside.
  final-holds :
      (now : ℕ) (scope : StoredWorkScope) (id : JobId) (command : CommitResult)
      (webhook : Option WebhookSubscriptionId) (is_processing : Bool)
      → Committed scope id command
      → After (
          notify now scope id command.terminal_state webhook (
            set_status scope id command.terminal_state (
              with_result scope id command.locator
                (if is_processing then set_status scope id validating db else db))))
  unfolding emit
  final-holds now scope id command none true h = twice scope id command h
  final-holds now scope id command (some w) true h = twice scope id command h
  final-holds now scope id command none false h = h
  final-holds now scope id command (some w) false h = h

  results_before :
      (scope : StoredWorkScope) (id : JobId) (is_processing : Bool)
      → (if is_processing then set_status scope id validating db else db).results ≡ db.results
  results_before scope id true = refl
  results_before scope id false = refl

  finish-Leaves :
      (now : ℕ) (scope : StoredWorkScope) (id : JobId) (command : CommitResult) (job : JobRow)
      (state : JobState)
      → P db.jobs db.results
      → (any (clashes (result_row scope id command.locator)) db.results ≡ false
          → Committed scope id command)
      → Leaves Q (finish now scope id command job db (to_validating scope id state db))
  unfolding finish emit
  finish-Leaves now scope id command job state same final =
      Leaves-branch Q _ _ _ (λ t. Leaves-end Q _ _ same)
        λ t.
          Leaves-found Q _ _ _ (λ e. Leaves-end Q _ _ same)
            λ row e.
              Leaves-commit Q _ _ _ _ (λ x. same)
                (λ x y.
                  final-holds now scope id command job.webhook_subscription_id
                    (state_eq state processing)
                    (final (
                      subst (λ rs. any (clashes (result_row scope id command.locator)) rs ≡ false)
                        (results_before scope id (state_eq state processing)) t)))

  commit-Leaves :
      (now : ℕ) (scope : StoredWorkScope) (id : JobId) (command : CommitResult)
      → P db.jobs db.results
      → Commits
      → Leaves Q (commit_result now scope id command db)
  unfolding commit_result
  commit-Leaves now scope id command same settle =
      Leaves-validated Q _ _ _ (λ x. same)
        λ v.
          Leaves-branch Q _ _ _ (λ t. Leaves-end Q _ _ same)
            λ t.
              Leaves-found Q _ _ _ (λ e. Leaves-end Q _ _ same)
                λ row e.
                  Leaves-decoded Q _ _ _ (λ x. same)
                    λ job d.
                      Leaves-found Q _ _ _
                        (λ n.
                          Leaves-branch Q _ _ _ (λ c. Leaves-end Q _ _ same)
                            λ c. finish-Leaves now scope id command row job.state same (
                              settle scope id row command e
                                (to_final row.status command.terminal_state
                                  (ground (arith, c, stored_job-state row job d))
                                  (ground (arith, t)))
                                (ground (arith, t))))
                        (λ existing n. Leaves-commit Q _ _ _ _ (λ x. same) (λ x y. same))

  existing_workflow-Leaves :
      (written_len stored_len : PageWorkflow → ℕ) (scope : StoredWorkScope) (id : JobId)
      (workflow : PageWorkflow)
      → P db.jobs db.results
      → Leaves Q (existing_workflow written_len stored_len scope id workflow db)
  unfolding existing_workflow
  existing_workflow-Leaves written_len stored_len scope id workflow same =
      Leaves-found Q _ _ _ (λ e. Leaves-end Q _ _ same)
        λ row e. Leaves-commit Q _ _ _ _ (λ x. same) (λ x y. same)

  start-Leaves :
      (written_len stored_len : PageWorkflow → ℕ) (scope : StoredWorkScope) (id : JobId)
      (workflow : PageWorkflow)
      → P db.jobs db.results
      → Updates
      → Leaves Q (create_page_workflow written_len stored_len scope id workflow db)
  unfolding create_page_workflow started
  start-Leaves written_len stored_len scope id workflow same updates =
      let existing = existing_workflow-Leaves written_len stored_len scope id workflow same in
      Leaves-branch Q _ _ _ (λ t. Leaves-end Q _ _ same)
        λ t.
          Leaves-validated Q _ _ _ (λ x. same)
            λ v.
              Leaves-found Q _ _ _ (λ e. existing)
                λ job e.
                  Leaves-branch Q _ _ _ (λ t. existing)
                    λ t.
                      Leaves-decoded Q _ _ _ (λ x. same)
                        λ stored d.
                          Leaves-branch Q _ _ _ (λ t. Leaves-end Q _ _ same)
                            λ t.
                              Leaves-found Q _ _ _ (λ e. Leaves-end Q _ _ same)
                                λ row e.
                                  Leaves-branch Q _ _ _
                                    (λ c. Leaves-end Q _ _ (
                                      updates scope id row processing e (to_processing row.status c)
                                        refl))
                                    (λ c. Leaves-end Q _ _ same)

  pub step_cases :
      (written_len stored_len : PageWorkflow → ℕ) (call : JobCall)
      → P db.jobs db.results
      → Appends
      → Updates
      → Commits
      → After (step written_len stored_len db call)
  unfolding step
  step_cases written_len stored_len (creates now request) same new updates settle =
      (create-Leaves now request same new).holds
  step_cases written_len stored_len (starts scope id workflow) same new updates settle =
      (start-Leaves written_len stored_len scope id workflow same updates).holds
  step_cases written_len stored_len (cancels now scope id) same new updates settle =
      (cancel-Leaves now scope id same updates).holds
  step_cases written_len stored_len (completes scope id) same new updates settle =
      (complete-Leaves scope id same updates).holds
  step_cases written_len stored_len (commits now scope id command) same new updates settle =
      (commit-Leaves now scope id command same settle).holds
