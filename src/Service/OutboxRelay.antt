-- ===== src/Service/OutboxRelay.antt =====
-- crates/ocr-service/src/outbox_relay.rs: the relay that starts a workflow for each event that it
-- claims, and marks the event as published. The store and the starter are parameters over a state,
-- which other processes may change between two calls.
pub mod Starter
pub mod Runs
pub mod Redelivery
pub mod Tests
use document_intelligence.Base.{
  ℕ, zero, suc, ◌+◌, Bool, true, false, List, [], ◌∷◌, ◌++◌, Result, ok, err,
}
use document_intelligence.Base.Text.{Str, codes, bytes}
use document_intelligence.Domain.Ids.{JobId}
use document_intelligence.Domain.SemanticMemory.{I64, pos}
use document_intelligence.Service.Digest.{hex_encode}
use document_intelligence.Store.Values.{
  StoredWorkScope, ClaimJobOutbox, JobOutboxEventType, StoredJobOutboxEvent,
  PublishJobOutboxOutcome,
}

pub data WorkflowAction : Type 0 where
  start cancel : WorkflowAction

-- The product and the tenant are the scope.
pub record WorkflowDispatch : Type 0 where
  pub event_id : ℕ
  pub workflow_id : Str
  pub scope : StoredWorkScope
  pub job_id : JobId
  pub page_count : ℕ
  pub action : WorkflowAction

pub data WorkflowDispatchOutcome : Type 0 where
  started existing : WorkflowDispatchOutcome

pub data WorkflowDispatchError : Type 0 where
  unavailable : WorkflowDispatchError

pub data RelayOutcome : Type 0 where
  idle : RelayOutcome
  published retryable lease_lost : ℕ → RelayOutcome

-- `&encoded[..32]`
abbrev first_bytes : ℕ → Str → Str
first_bytes zero text = []
first_bytes (suc n) [] = []
first_bytes (suc n) (c ∷ text) = c ∷ first_bytes n text

-- What the digest is fed with.
unfoldable pub workflow_message : StoredWorkScope → JobId → List ℕ
unfolding bytes
workflow_message scope job_id =
    bytes scope.product_id.text ++ (0 ∷ (bytes scope.tenant_id.text ++ (0 ∷ bytes job_id.text)))

unfoldable pub scoped_workflow_id : (List ℕ → List ℕ) → StoredWorkScope → JobId → Str
unfolding hex_encode workflow_message
scoped_workflow_id sha256 scope job_id =
    codes "ocr-v1-" ++ first_bytes 32 (hex_encode (sha256 (workflow_message scope job_id)))

-- The calls that the relay makes.
pub record Relay (S E : Type 0) : Type 0 where
  pub claim_job_outbox : ClaimJobOutbox → S → S × Result E (List StoredJobOutboxEvent)
  pub publish_job_outbox : ℕ → Str → S → S × Result E PublishJobOutboxOutcome
  pub dispatch : WorkflowDispatch → S → S × Result WorkflowDispatchError WorkflowDispatchOutcome

abbrev pub action_of : JobOutboxEventType → WorkflowAction
action_of JobOutboxEventType.accepted = start
action_of JobOutboxEventType.cancellation_requested = cancel

module _ {S E : Type 0} (relay : Relay S E) (sha256 : List ℕ → List ℕ) (scope : StoredWorkScope)
    (lease_owner : Str) where
  abbrev pub dispatch_of : StoredJobOutboxEvent → WorkflowDispatch
  dispatch_of event = record {
    event_id = event.event_id;
    workflow_id = scoped_workflow_id sha256 scope event.job_id;
    scope = scope;
    job_id = event.job_id;
    page_count = event.page_count;
    action = action_of event.event_type;
  }

  -- The body of the loop, from the answers to the two calls and what the rest of the loop gives.
  abbrev pub relay_step :
      ℕ
      → S × Result WorkflowDispatchError WorkflowDispatchOutcome
      → S × Result E PublishJobOutboxOutcome
      → S × Result E RelayOutcome
      → S × Result E RelayOutcome
  relay_step count (after, err e) outcome rest = (after, ok (retryable count))
  relay_step count (after, ok _) (later, err e) rest = (later, err e)
  relay_step count (after, ok _) (later, ok PublishJobOutboxOutcome.published) rest = rest
  relay_step count (after, ok _) (later, ok PublishJobOutboxOutcome.existing) rest = rest
  relay_step count (after, ok _) (later, ok PublishJobOutboxOutcome.lease_lost) rest =
      (later, ok (lease_lost count))
  relay_step count (after, ok _) (later, ok PublishJobOutboxOutcome.not_found) rest =
      (later, ok (lease_lost count))

  -- The loop over the events, with the number that is published.
  unfoldable pub relay_events : List StoredJobOutboxEvent → ℕ → S → S × Result E RelayOutcome
  relay_events [] count s = (s, ok (published count))
  relay_events (event ∷ events) count s =
      let answer = relay.dispatch (dispatch_of event) s in
      let outcome = relay.publish_job_outbox event.event_id lease_owner answer.0 in
      let rest = relay_events events (count + 1) outcome.0 in relay_step count answer outcome rest

  -- What follows the claim.
  unfoldable pub relay_claimed :
      S × Result E (List StoredJobOutboxEvent) → S × Result E RelayOutcome
  unfolding relay_events
  relay_claimed (s, err e) = (s, err e)
  relay_claimed (s, ok []) = (s, ok idle)
  relay_claimed (s, ok (event ∷ events)) = relay_events (event ∷ events) 0 s

  unfoldable pub relay_scope : I64 → S → S × Result E RelayOutcome
  unfolding relay_claimed
  relay_scope limit s =
      relay_claimed (relay.claim_job_outbox (record { lease_owner = lease_owner; limit = limit }) s)
