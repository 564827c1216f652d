-- ===== src/Store/Lifecycle.antt =====
-- Sequences of calls on the jobs of crates/ocr-store/src/lib.rs, by any number of processes, and
-- how they can change the status of a job.
pub mod Steps
pub mod Refinement
pub mod Results
pub mod Committed
pub mod Repeated
pub mod Tests
use document_intelligence.Base.{
  ℕ, ◌≡◌, refl, sym, ap, subst, ◌∙◌, Bool, true, false, any, ◌&&◌, not, List, [], ◌∷◌, ◌++◌, Option,
  none, some, arith, if◌then◌else◌, Result, ok, err,
}
use document_intelligence.Base.Text.{str_eq}
use document_intelligence.Domain.Errors.{JobState, processing, cancelling, cancelled, validating}
use document_intelligence.Domain.JobLifecycle.{state_eq}
use document_intelligence.Domain.Ids.{JobId, WebhookSubscriptionId}
use document_intelligence.PageWorkflow.{PageWorkflow, status}
use document_intelligence.Store.Values.{Error, StoredWorkScope, CreateJob, CommitResult, StoredJob}
use document_intelligence.Store.Tables.{
  Database, JobRow, ResultRow, find_row, update_row, update_row_twice,
}
use document_intelligence.Store.Transactions.{
  Leaves, Leaves-end, Leaves-validated, Leaves-decoded, Leaves-found, Leaves-branch, Leaves-commit,
}
use document_intelligence.Store.WorkScopes.{register_work_scope}
use document_intelligence.Store.Jobs.{
  has_job, create, existing_job, accepted_job, emit, with_status, is_cancellable, cancel,
  stored_job, complete_cancellation, is_final, set_status,
}
use document_intelligence.Store.Jobs.Results.{
  is_committable, to_validating, notify, with_result, result_row, clashes, finish, commit_result,
}
use document_intelligence.Store.PageWorkflows.{
  create_page_workflow, existing_workflow, started, is_startable, may_start, is_cancelled,
}

pub data JobCall : Type 0 where
  creates : ℕ → CreateJob → JobCall
  starts : StoredWorkScope → JobId → PageWorkflow → JobCall
  cancels : ℕ → StoredWorkScope → JobId → JobCall
  completes : StoredWorkScope → JobId → JobCall
  commits : ℕ → StoredWorkScope → JobId → CommitResult → JobCall

-- How a call can change the status of a job.
pub data Change : JobState → JobState → Type 0 where
  to_processing : (s : JobState) → is_startable s ≡ true → Change s processing
  to_cancelled : (s : JobState) → is_cancellable s ≡ true → Change s cancelled
  from_cancelling : (s : JobState) → state_eq s cancelling ≡ true → Change s cancelled
  to_final : (s t : JobState) → is_committable s ≡ true → is_final t ≡ true → Change s t

module _ (written_len stored_len : PageWorkflow → ℕ) where
  unfoldable pub step : Database → JobCall → Database
  unfolding create create_page_workflow cancel complete_cancellation commit_result
  step db (creates now request) = (create now request db).0
  step db (starts scope id workflow) =
      (create_page_workflow written_len stored_len scope id workflow db).0
  step db (cancels now scope id) = (cancel now scope id db).0
  step db (completes scope id) = (complete_cancellation scope id db).0
  step db (commits now scope id command) = (commit_result now scope id command db).0

  unfoldable pub run : Database → List JobCall → Database
  unfolding step
  run db [] = db
  run db (call ∷ calls) = run (step db call) calls
