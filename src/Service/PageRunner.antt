-- ===== src/Service/PageRunner.antt =====
-- crates/ocr-service/src/page_runner.rs: one round of a worker on a stored page workflow. It claims
-- tasks, stores the claim, has the pages processed, and stores what became of them. The tenant, the
-- product and the job are fixed. The store and the concurrent processing of the pages are
-- parameters over a state, which other workers may change between two calls.

pub mod Outcomes
pub mod Rounds
pub mod Errors
pub mod Stored
pub mod Tests
use document_intelligence.Base.{
  ℕ, Bool, true, false, ◌&&◌, ◌||◌, not, List, [], ◌∷◌, ◌++◌, Option, none, some, if◌then◌else◌,
  ltb, leb, ◌==◌, within, Result, ok, err,
}
use document_intelligence.Domain.Errors.{Error}
use document_intelligence.PageWorkflow.{
  PageWorkflow, PageTask, PageWorkflowStatus, status, claim_ready, record_success,
  record_retryable_failure, record_permanent_failure,
}
use document_intelligence.Temporal.Activities.{PageRunnerOutcome, PageRunnerError, idle, progressed}
pub use document_intelligence.Store.Values.{
  StoredPageWorkflow, SavePageWorkflowOutcome, saved, conflict, not_found,
}

pub data PageProcessError : Type 0 where
  rate_limited retryable permanent : PageProcessError

pub record CheckpointedPageRunner : Type 0 where
  pub batch_size : ℕ
  pub concurrency : ℕ

-- `CheckpointedPageRunner::new`
unfoldable pub new_page_runner :
    {E : Type 0} → ℕ → ℕ → Result (PageRunnerError E) CheckpointedPageRunner
new_page_runner batch_size concurrency =
    if not (within 1 64 batch_size) || (concurrency == 0 || ltb batch_size concurrency)
    then err PageRunnerError.invalid_configuration
    else ok (record { batch_size = batch_size; concurrency = concurrency })

module _ {A : Type 0} where
  -- The match on one outcome: the report that it makes.
  unfoldable pub record_outcome :
      PageWorkflow → PageTask → Result PageProcessError A → PageWorkflow × Result Error (Unit {0})
  record_outcome w t (ok artifact) = record_success w t
  record_outcome w t (err retryable) = record_retryable_failure w t
  record_outcome w t (err rate_limited) = record_retryable_failure w t
  record_outcome w t (err permanent) = record_permanent_failure w t

  -- `artifacts.push(artifact)`
  abbrev pub pushed : List A → Result PageProcessError A → List A
  pushed artifacts (ok artifact) = artifacts ++ artifact ∷ []
  pushed artifacts (err e) = artifacts

  -- `task.attempt < stored.workflow.maximum_attempts()` of a page that was rate limited
  abbrev pub is_limited : ℕ → PageTask → Result PageProcessError A → Bool
  is_limited max_attempts t (err rate_limited) = ltb t.attempt max_attempts
  is_limited max_attempts t _ = false

  -- The loop over the outcomes, with the artifacts and the flag that it has gathered.
  unfoldable pub record_outcomes :
      PageWorkflow
      → List A
      → Bool
      → List (PageTask × Result PageProcessError A)
      → Result Error (PageWorkflow × List A × Bool)
  unfolding record_outcome
  record_outcomes w artifacts limited [] = ok (w, artifacts, limited)
  record_outcomes w artifacts limited ((t, outcome) ∷ os) =
      let done = record_outcome w t outcome in
      let rest =
        record_outcomes done.0 (pushed artifacts outcome)
          (limited || is_limited done.0.max_attempts t outcome) os in
      elim done.1 [ err e ↦ err e | ok _ ↦ rest ]

abbrev pub is_running : PageWorkflowStatus → Bool
is_running PageWorkflowStatus.running = true
is_running _ = false

-- The calls of the store that the runner makes. `save_page_workflow` saves no artifacts.
pub record PageStore (S E A : Type 0) : Type 0 where
  pub load_page_workflow : S → S × Result E (Option StoredPageWorkflow)
  pub save_page_workflow_with_artifacts :
      ℕ → PageWorkflow → List A → S → S × Result E SavePageWorkflowOutcome

module _ {S E A : Type 0} (store : PageStore S E A)
    (process_all : List PageTask → S → S × List (PageTask × Result PageProcessError A))
    (runner : CheckpointedPageRunner) where
  -- The match on the outcome of the second save.
  abbrev pub finish :
      PageWorkflowStatus
      → Bool
      → S × Result E SavePageWorkflowOutcome
      → S × Result (PageRunnerError E) PageRunnerOutcome
  finish status limited (s, err e) = (s, err (PageRunnerError.store e))
  finish status limited (s, ok (saved stored)) =
      if limited && is_running status
      then (s, err PageRunnerError.rate_limited)
      else (s, ok (progressed status))
  finish status limited (s, ok conflict) = (s, err PageRunnerError.retryable_conflict)
  finish status limited (s, ok not_found) = (s, err PageRunnerError.not_found)

  -- What follows the processing of the pages.
  unfoldable pub record_step :
      StoredPageWorkflow
      → S × List (PageTask × Result PageProcessError A)
      → S × Result (PageRunnerError E) PageRunnerOutcome
  unfolding record_outcomes
  record_step stored (s, outcomes) = elim (record_outcomes stored.workflow [] false outcomes) [
    | err e ↦ (s, err (PageRunnerError.domain e))
    | ok (w, artifacts, limited) ↦
        finish (status w) limited
          (store.save_page_workflow_with_artifacts stored.revision w artifacts s)
  ]

  -- The match on the outcome of the first save.
  unfoldable pub process_step :
      List PageTask
      → S × Result E SavePageWorkflowOutcome
      → S × Result (PageRunnerError E) PageRunnerOutcome
  unfolding record_step
  process_step tasks (s, err e) = (s, err (PageRunnerError.store e))
  process_step tasks (s, ok (saved stored)) = record_step stored (process_all tasks s)
  process_step tasks (s, ok conflict) = (s, err PageRunnerError.retryable_conflict)
  process_step tasks (s, ok not_found) = (s, err PageRunnerError.not_found)

  -- What follows the claim.
  unfoldable pub claim_step :
      ℕ
      → PageWorkflow × Result Error (List PageTask)
      → S
      → S × Result (PageRunnerError E) PageRunnerOutcome
  unfolding process_step
  claim_step revision (w, err e) s = (s, err (PageRunnerError.domain e))
  claim_step revision (w, ok []) s = (s, ok (idle (status w)))
  claim_step revision (w, ok (t ∷ ts)) s =
      process_step (t ∷ ts) (store.save_page_workflow_with_artifacts revision w [] s)

  -- `CheckpointedPageRunner::run_once`, from the loaded row on
  unfoldable pub run_loaded :
      S × Result E (Option StoredPageWorkflow) → S × Result (PageRunnerError E) PageRunnerOutcome
  unfolding claim_step
  run_loaded (s, err e) = (s, err (PageRunnerError.store e))
  run_loaded (s, ok none) = (s, err PageRunnerError.not_found)
  run_loaded (s, ok (some stored)) =
      claim_step stored.revision (claim_ready stored.workflow runner.batch_size) s

  unfoldable pub run_once : S → S × Result (PageRunnerError E) PageRunnerOutcome
  unfolding run_loaded
  run_once s = run_loaded (store.load_page_workflow s)
