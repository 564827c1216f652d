-- ===== src/Service/OutboxRelay/Starter.antt =====
-- `DurableWorkflowStarter` of crates/ocr-service/src/outbox_relay.rs, on the relational store.
use document_intelligence.Base.{ℕ, not, Option, none, some, within, if◌then◌else◌, Result, ok, err}
use document_intelligence.Domain.Errors as Domain
use document_intelligence.Domain.SemanticMemory.{pos}
use document_intelligence.PageWorkflow.{PageWorkflow, status, request_cancellation}
use document_intelligence.PageWorkflow as Workflow
use document_intelligence.Store.Values.{
  Error, StoredPageWorkflow, CreatePageWorkflowOutcome, SavePageWorkflowOutcome,
  CompleteCancellationOutcome,
}
use document_intelligence.Store.Tables.{Database}
use document_intelligence.Store.Jobs as Jobs
use document_intelligence.Store.PageWorkflows.{
  create_page_workflow, load_page_workflow, save_page_workflow, is_cancelled,
}
use document_intelligence.Service.OutboxRelay.{
  WorkflowDispatch, start, cancel, WorkflowDispatchOutcome, started, existing,
  WorkflowDispatchError, unavailable,
}

pub record DurableWorkflowStarter : Type 0 where
  pub max_attempts : ℕ

pub data DurableWorkflowConfigurationError : Type 0 where
  invalid_configuration : DurableWorkflowConfigurationError

unfoldable pub new_starter : ℕ → Result DurableWorkflowConfigurationError DurableWorkflowStarter
new_starter max_attempts =
    if not (within 1 10 max_attempts)
    then err invalid_configuration
    else ok (record { max_attempts = max_attempts })

abbrev Dispatched : Type 0
Dispatched = Database × Result WorkflowDispatchError WorkflowDispatchOutcome

module _ (written_len stored_len : PageWorkflow → ℕ) (starter : DurableWorkflowStarter) where
  abbrev completed : Database × Result Error CompleteCancellationOutcome → Dispatched
  completed (db, ok (CompleteCancellationOutcome.cancelled job)) = (db, ok started)
  completed (db, ok (CompleteCancellationOutcome.existing job)) = (db, ok existing)
  completed (db, _) = (db, err unavailable)

  unfoldable pub complete_cancellation : WorkflowDispatch → Database → Dispatched
  complete_cancellation d db = completed (Jobs.complete_cancellation d.scope d.job_id db)

  -- What follows the save of a cancelled workflow.
  abbrev saved_then :
      WorkflowDispatch → Database × Result Error SavePageWorkflowOutcome → Dispatched
  saved_then d (db, ok (SavePageWorkflowOutcome.saved stored)) = complete_cancellation d db
  saved_then d (db, _) = (db, err unavailable)

  unfoldable pub cancel_stored : WorkflowDispatch → StoredPageWorkflow → Database → Dispatched
  cancel_stored d stored db =
      if is_cancelled (status stored.workflow)
      then complete_cancellation d db
      else saved_then d (
          save_page_workflow written_len stored_len d.scope d.job_id (pos stored.revision)
            (request_cancellation stored.workflow) db)

  -- What follows the creation of a workflow that is cancelled from the start.
  abbrev created_then :
      WorkflowDispatch → Database × Result Error CreatePageWorkflowOutcome → Dispatched
  created_then d (db, ok (CreatePageWorkflowOutcome.created stored)) = (db, ok started)
  created_then d (db, ok (CreatePageWorkflowOutcome.existing stored)) = cancel_stored d stored db
  created_then d (db, _) = (db, err unavailable)

  abbrev cancel_new : WorkflowDispatch → Database → Result Domain.Error PageWorkflow → Dispatched
  cancel_new d db (err e) = (db, err unavailable)
  cancel_new d db (ok workflow) = created_then d (
      create_page_workflow written_len stored_len d.scope d.job_id (request_cancellation workflow)
        db)

  -- `DurableWorkflowStarter::cancel`
  abbrev cancel_loaded :
      WorkflowDispatch → Database → Result Error (Option StoredPageWorkflow) → Dispatched
  cancel_loaded d db (err e) = (db, err unavailable)
  cancel_loaded d db (ok none) =
      cancel_new d db (Workflow.new d.job_id d.page_count starter.max_attempts)
  cancel_loaded d db (ok (some stored)) = cancel_stored d stored db

  unfoldable pub cancel_workflow : WorkflowDispatch → Database → Dispatched
  cancel_workflow d db =
      cancel_loaded d db (load_page_workflow written_len stored_len d.scope d.job_id db)

  abbrev pub started_then : Database × Result Error CreatePageWorkflowOutcome → Dispatched
  started_then (db, ok (CreatePageWorkflowOutcome.created stored)) = (db, ok started)
  started_then (db, ok (CreatePageWorkflowOutcome.existing stored)) = (db, ok existing)
  started_then (db, _) = (db, err unavailable)

  abbrev start_new : WorkflowDispatch → Database → Result Domain.Error PageWorkflow → Dispatched
  start_new d db (err e) = (db, err unavailable)
  start_new d db (ok workflow) =
      started_then (create_page_workflow written_len stored_len d.scope d.job_id workflow db)

  unfoldable pub dispatch_workflow : WorkflowDispatch → Database → Dispatched
  dispatch_workflow d db = elim d.action [
    | start ↦ start_new d db (Workflow.new d.job_id d.page_count starter.max_attempts)
    | cancel ↦ cancel_workflow d db
  ]
