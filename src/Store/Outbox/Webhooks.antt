-- ===== src/Store/Outbox/Webhooks.antt =====
-- `claim_webhook_outbox` of crates/ocr-store/src/lib.rs.
use document_intelligence.Base.{
  ℕ, Bool, true, false, not, List, [], ◌∷◌, none, some, ◌==◌, Result, ok, err, ◌>>=◌, ◌>>◌,
  reject_if, map_err,
}
use document_intelligence.Domain.Ids.{
  JobId, WebhookSubscriptionId, DocumentVersion, new_job_id, new_webhook_subscription_id,
  new_document_version,
}
use document_intelligence.Store.Values.{
  Error, invalid_outbox_event, within_i64, StoredWorkScope, ClaimJobOutbox,
}
use document_intelligence.Store.Validation.{validate_lease_owner}
use document_intelligence.Store.Tables.{Database, ResultRow, EventRow, EventType, find_row}
use document_intelligence.Store.Transactions.{validated, branch, commit}
use document_intelligence.Store.Jobs.{has_job}
use document_intelligence.Store.Jobs.Results.{has_scoped_result}
use document_intelligence.Store.Outbox.{returned, limit_of, with_claim}

abbrev pub is_webhook_event : EventType → Bool
is_webhook_event EventType.completed = true
is_webhook_event EventType.partial = true
is_webhook_event EventType.review_required = true
is_webhook_event _ = false

pub data WebhookOutboxEventType : Type 0 where
  completed partial review_required : WebhookOutboxEventType

pub record StoredWebhookOutboxEvent : Type 0 where
  pub event_id : ℕ
  pub job_id : JobId
  pub event_type : WebhookOutboxEventType
  pub webhook_subscription_id : WebhookSubscriptionId
  pub document_version : DocumentVersion
  pub occurred_at : ℕ

-- A returned row with the webhook of its job and the result. A row without a partner, or of a job
-- without a webhook, is dropped by the join.
abbrev joined : Database → List EventRow → List (EventRow × WebhookSubscriptionId × ResultRow)
joined db [] = []
joined db (row ∷ rows) = elim (find_row (has_job row.scope row.job_id) db.jobs) [
  | none ↦ joined db rows
  | some job ↦ elim job.webhook_subscription_id [
    | none ↦ joined db rows
    | some webhook ↦ elim (find_row (has_scoped_result row.scope row.job_id) db.results) [
      | none ↦ joined db rows
      | some result ↦ (row, webhook, result) ∷ joined db rows
    ]
  ]
]

abbrev webhook_event_type : EventType → Result Error WebhookOutboxEventType
webhook_event_type EventType.completed = ok WebhookOutboxEventType.completed
webhook_event_type EventType.partial = ok WebhookOutboxEventType.partial
webhook_event_type EventType.review_required = ok WebhookOutboxEventType.review_required
webhook_event_type _ = err invalid_outbox_event

unfoldable pub stored_webhook_outbox_event :
    EventRow × WebhookSubscriptionId × ResultRow → Result Error StoredWebhookOutboxEvent
stored_webhook_outbox_event (row, webhook, result) = do
  reject_if (row.event_id == 0) invalid_outbox_event
  type ← webhook_event_type row.event_type
  job_id ← map_err (λ _. invalid_outbox_event) (new_job_id row.job_id.text)
  subscription ← map_err (λ _. invalid_outbox_event) (new_webhook_subscription_id webhook.text)
  version ←
      map_err (λ _. invalid_outbox_event)
        (new_document_version result.locator.document_version.text)
  ok (record {
    event_id = row.event_id;
    job_id = job_id;
    event_type = type;
    webhook_subscription_id = subscription;
    document_version = version;
    occurred_at = row.created_at;
  })

unfoldable pub decode_events :
    List (EventRow × WebhookSubscriptionId × ResultRow)
    → Result Error (List StoredWebhookOutboxEvent)
decode_events [] = ok []
decode_events (row ∷ rows) =
    let rest = decode_events rows in
    stored_webhook_outbox_event row >>= λ event. rest >>= λ events. ok (event ∷ events)

unfoldable pub claim_webhook_outbox :
    ℕ
    → StoredWorkScope
    → ClaimJobOutbox
    → Database
    → Database × Result Error (List StoredWebhookOutboxEvent)
claim_webhook_outbox now scope claim db = validated db (validate_lease_owner claim.lease_owner) (
    branch (not (within_i64 1 100 claim.limit)) (db, err invalid_outbox_event)
      (commit db (with_claim now scope is_webhook_event claim db) (λ events. events)
        (decode_events (
          joined db (
            returned now scope is_webhook_event claim.lease_owner (limit_of claim.limit)
              db.outbox)))))
