-- ===== src/Service/OutboxRelay/Tests.antt =====
-- A relay whose second event is refused, and a start that is delivered again.
use document_intelligence.Base.{
  ℕ, ◌+◌, ◌≡◌, refl, List, [], ◌∷◌, false, ok, err, if◌then◌else◌, ◌==◌,
}
use document_intelligence.Base.Text.{codes, str_eq, len, bytes, strip_prefix}
use document_intelligence.Domain.Ids.{new_job_id, validated_id}
use document_intelligence.PageWorkflow.{PageWorkflow, pending, running, try_from}
use document_intelligence.PageWorkflow as Workflow
use document_intelligence.Store.Values.{
  StoredJobOutboxEvent, JobOutboxEventType, PublishJobOutboxOutcome, StoredPageWorkflow,
}
use document_intelligence.Store.Tables.{Database, PageWorkflowRow}
use document_intelligence.Store.PageWorkflows.{
  serialize_page_workflow, stored_page_workflow, workflow_eq,
}
use document_intelligence.Service.OutboxRelay.{
  Relay, WorkflowDispatch, start, started, existing, unavailable, relay_events,
}
use document_intelligence.Service.OutboxRelay.Starter.{DurableWorkflowStarter, dispatch_workflow}
use document_intelligence.Service.OutboxRelay.Runs.{Says, relay_events-Says}
use document_intelligence.Service.OutboxRelay.Redelivery.{dispatch_workflow-again}
use document_intelligence.Store.Tests.{scope, id_of_job, empty}

-- The state is the number of published events.
abbrev counting : Relay ℕ (Unit {0})
counting = record {
  claim_job_outbox = λ claim n. (n, ok []);
  publish_job_outbox = λ id owner n. (n + 1, ok PublishJobOutboxOutcome.published);
  dispatch = λ d n. if d.event_id == 2 then (n, err unavailable) else (n, ok started);
}

abbrev event : ℕ → StoredJobOutboxEvent
event n = record {
  event_id = n;
  job_id = id_of_job;
  event_type = JobOutboxEventType.accepted;
  page_count = 2;
}

abbrev same_bytes : List ℕ → List ℕ
same_bytes bs = bs

relay_events-Says_example :
    let (last, r) =
      relay_events counting same_bytes scope
        (codes "relay-1")
        (event 1 ∷ event 2 ∷ event 3 ∷ [])
        0
        0 in
    Says counting same_bytes scope (codes "relay-1") 0 (event 1 ∷ event 2 ∷ event 3 ∷ []) 0 last r
relay_events-Says_example =
    relay_events-Says counting same_bytes scope (codes "relay-1") (event 1 ∷ event 2 ∷ event 3 ∷ [])
      0 0

abbrev json_len : PageWorkflow → ℕ
json_len workflow = 100

abbrev starter : DurableWorkflowStarter
starter = record { max_attempts = 3 }

abbrev new_workflow : PageWorkflow
new_workflow = record {
  job_id = id_of_job;
  max_attempts = 3;
  pages = pending 0 ∷ pending 0 ∷ [];
  cancelled = false;
}

-- The first page has been claimed since the first start.
abbrev claimed : StoredPageWorkflow
claimed = record {
  workflow = record new_workflow { pages = running 1 ∷ pending 0 ∷ [] };
  revision = 1;
}

abbrev row : PageWorkflowRow
row = record { job_id = id_of_job; scope = scope; revision = 1; checkpoint = claimed.workflow }

abbrev db : Database
db = record empty { page_workflows = row ∷ [] }

abbrev dispatch : WorkflowDispatch
dispatch = record {
  event_id = 1;
  workflow_id = codes "ocr-v1-";
  scope = scope;
  job_id = id_of_job;
  page_count = 2;
  action = start;
}

dispatch_workflow-again_example :
    dispatch_workflow json_len json_len starter dispatch db
    ≡ (db, if workflow_eq claimed.workflow new_workflow then ok existing else err unavailable)
unfolding Workflow.new try_from serialize_page_workflow stored_page_workflow str_eq new_job_id
    validated_id strip_prefix len bytes
dispatch_workflow-again_example =
    dispatch_workflow-again json_len json_len starter dispatch new_workflow db row claimed refl refl
      refl refl refl
