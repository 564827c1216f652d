-- ===== src/Service/OutboxRelay/Redelivery.antt =====
-- An event that is delivered again, in `DurableWorkflowStarter` of
-- crates/ocr-service/src/outbox_relay.rs.
use document_intelligence.Base.{
  ℕ, ◌≡◌, refl, ap, ◌∙◌, inl, inr, true, ◌&&◌, any, List, [], ◌∷◌, some, arith, if◌then◌else◌, ok,
  err, Option-cases,
}
use document_intelligence.Base.Text.{str_eq, str_eq_refl}
use document_intelligence.Domain.Ids.{JobId}
use document_intelligence.PageWorkflow.{PageWorkflow, status}
use document_intelligence.PageWorkflow as Workflow
use document_intelligence.Store.Values.{
  StoredWorkScope, StoredPageWorkflow, CreatePageWorkflowOutcome,
}
use document_intelligence.Store.Tables.{Database, PageWorkflowRow, find_row}
use document_intelligence.Store.Transactions.{found, branch, validated, commit}
use document_intelligence.Store.Jobs.{has_job}
use document_intelligence.Store.PageWorkflows.{
  create_page_workflow, existing_workflow, has_workflow, is_cancelled, may_start, workflow_eq,
  serialize_page_workflow, stored_page_workflow,
}
use document_intelligence.Service.OutboxRelay.{WorkflowDispatch, start, existing, unavailable}
use document_intelligence.Service.OutboxRelay.Starter.{DurableWorkflowStarter, dispatch_workflow}

has_workflow-any :
    (scope : StoredWorkScope) (id : JobId) (rows : List PageWorkflowRow) (row : PageWorkflowRow)
    → find_row (has_workflow scope id) rows ≡ some row
    → any (λ r. str_eq r.job_id.text id.text) rows ≡ true
has_workflow-any scope id [] row e = cc
has_workflow-any scope id (r ∷ rows) row e = ground (arith, has_workflow-any scope id rows row)

module _ (written_len stored_len : PageWorkflow → ℕ) (scope : StoredWorkScope) (id : JobId)
    (workflow : PageWorkflow) (db : Database) (row : PageWorkflowRow) (stored : StoredPageWorkflow)
    (own : workflow.job_id.text ≡ id.text)
    (fits : serialize_page_workflow written_len stored_len workflow ≡ ok tt)
    (there : find_row (has_workflow scope id) db.page_workflows ≡ some row)
    (decodes : stored_page_workflow written_len stored_len row ≡ ok stored) where
  abbrev answer : CreatePageWorkflowOutcome
  answer =
      if workflow_eq stored.workflow workflow
      then CreatePageWorkflowOutcome.existing stored
      else CreatePageWorkflowOutcome.conflict

  existing_workflow-answer :
      existing_workflow written_len stored_len scope id workflow db ≡ (db, ok answer)
  unfolding existing_workflow found commit
  existing_workflow-answer = rw (there, decodes) refl

  -- A workflow that is there is not created again.
  create-answer : create_page_workflow written_len stored_len scope id workflow db ≡ (db, ok answer)
  unfolding create_page_workflow found branch validated
  create-answer =
      let same = ap (λ t. str_eq t id.text) own ∙ str_eq_refl id.text in
      let taken = has_workflow-any scope id db.page_workflows row there in
      let checkpoint = is_cancelled (status workflow) in
      elim (Option-cases
        (find_row (λ r. has_job scope id r && may_start checkpoint r.status) db.jobs)) [
          | inl none_ ↦ rw (same, fits, none_) existing_workflow-answer
          | inr (job, e) ↦ rw (same, fits, e, taken) existing_workflow-answer
        ]

new-job_id :
    (id : JobId) (page_count max_attempts : ℕ) (workflow : PageWorkflow)
    → Workflow.new id page_count max_attempts ≡ ok workflow
    → workflow.job_id.text ≡ id.text
unfolding Workflow.new
new-job_id id page_count max_attempts workflow e = ground (arith, e)

module _ (written_len stored_len : PageWorkflow → ℕ) (starter : DurableWorkflowStarter) where
  -- A start that is delivered again changes nothing. With a stored workflow that decodes, it is
  -- answered as one that exists if the stored workflow is the one that it would create, and as
  -- unavailable otherwise.
  pub dispatch_workflow-again :
      (d : WorkflowDispatch) (workflow : PageWorkflow) (db : Database) (row : PageWorkflowRow)
      (stored : StoredPageWorkflow)
      → d.action ≡ start
      → Workflow.new d.job_id d.page_count starter.max_attempts ≡ ok workflow
      → serialize_page_workflow written_len stored_len workflow ≡ ok tt
      → find_row (has_workflow d.scope d.job_id) db.page_workflows ≡ some row
      → stored_page_workflow written_len stored_len row ≡ ok stored
      → dispatch_workflow written_len stored_len starter d db
        ≡ (db, if workflow_eq stored.workflow workflow then ok existing else err unavailable)
  unfolding dispatch_workflow
  dispatch_workflow-again d workflow db row stored starts made fits there decodes =
      let own : workflow.job_id.text ≡ d.job_id.text =
        new-job_id d.job_id d.page_count starter.max_attempts workflow made in
      let created =
        create-answer written_len stored_len d.scope d.job_id workflow db row stored own fits there
          decodes in
      ground (arith, starts, made, created)
