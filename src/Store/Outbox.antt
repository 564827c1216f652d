-- ===== src/Store/Outbox.antt =====
-- The delivery of events in crates/ocr-store/src/lib.rs: a process claims events under a lease,
-- delivers them, and marks each one as published. An event that was claimed twenty times is given
-- up. The rows that `skip locked` passes over are those of a transaction at the same time, and
-- transactions are one after another here.
pub mod Webhooks
pub mod Deliveries
pub mod Kept
pub mod Leases
pub mod Tests
use document_intelligence.Base.{
  ℕ, zero, suc, ◌+◌, Bool, true, false, ◌&&◌, ◌||◌, not, List, [], ◌∷◌, ◌++◌, Option, none, some,
  map, if◌then◌else◌, ltb, leb, ◌==◌, within, any, Result, ok, err, ◌>>=◌, ◌>>◌, reject_if, map_err,
  sort_by_key,
}
use document_intelligence.Base.Text.{Str, str_eq, is_some_and}
use document_intelligence.Domain.Ids.{JobId, new_job_id}
use document_intelligence.Domain.SemanticMemory.{I64, pos, negsuc}
use document_intelligence.PageWorkflow.{maximum_page_count}
use document_intelligence.Store.Values.{
  Error, database, invalid_outbox_event, within_i64, StoredWorkScope, scope_eq, ClaimJobOutbox,
  JobOutboxEventType, StoredJobOutboxEvent, PublishJobOutboxOutcome,
}
use document_intelligence.Store.Validation.{validate_lease_owner}
use document_intelligence.Store.Tables.{
  Database, UploadRow, JobRow, EventRow, EventType, find_row, update_row, five_minutes,
  is_lease_active, is_owned,
}
use document_intelligence.Store.Transactions.{validated, decoded, found, branch, commit}
use document_intelligence.Store.WorkScopes.{dispatch, set_work_scope_pending}
use document_intelligence.Store.Jobs.{has_job}
use document_intelligence.Store.Uploads.{has_upload}

abbrev pub maximum_delivery_attempts : ℕ
maximum_delivery_attempts = 20

-- The events that the relay of jobs delivers; the others are for webhooks.
abbrev pub is_job_event : EventType → Bool
is_job_event EventType.accepted = true
is_job_event EventType.cancellation_requested = true
is_job_event _ = false

abbrev pub is_null : Option ℕ → Bool
is_null none = true
is_null (some t) = false

abbrev pub is_open : EventRow → Bool
is_open row = is_null row.published_at && is_null row.dead_lettered_at

-- `delivery_lease_expires_at <= now()`, which is not true of null.
abbrev pub has_expired : ℕ → Option ℕ → Bool
has_expired now expires = is_some_and expires (λ t. leb t now)

abbrev pub is_exhausted : ℕ → StoredWorkScope → EventRow → Bool
is_exhausted now scope row =
    scope_eq row.scope scope
    && (is_open row
        && ((row.delivery_attempts == maximum_delivery_attempts)
            && has_expired now row.delivery_lease_expires_at))

-- The first update of a claim.
unfoldable pub dead_lettered : ℕ → StoredWorkScope → EventRow → EventRow
dead_lettered now scope row =
    if is_exhausted now scope row
    then record row {
      dead_lettered_at = some now;
      delivery_lease_owner = none;
      delivery_lease_expires_at = none;
    }
    else row

-- The condition on a candidate, for one of the two kinds of events.
abbrev pub is_candidate : ℕ → StoredWorkScope → (EventType → Bool) → Str → EventRow → Bool
is_candidate now scope kinds owner row =
    scope_eq row.scope scope
    && (kinds row.event_type
        && (is_open row
            && (ltb row.delivery_attempts maximum_delivery_attempts
                && (is_owned owner row.delivery_lease_owner
                    || (is_null row.delivery_lease_expires_at
                        || has_expired now row.delivery_lease_expires_at)))))

unfoldable pub leased : ℕ → Str → EventRow → EventRow
leased now owner row = record row {
  delivery_attempts =
      if is_owned owner row.delivery_lease_owner
        && is_lease_active now row.delivery_lease_expires_at
      then row.delivery_attempts
      else row.delivery_attempts + 1;
  delivery_lease_owner = some owner;
  delivery_lease_expires_at = some (now + five_minutes);
}

abbrev pub event_id_of : EventRow → ℕ
event_id_of row = row.event_id

module _ {A : Type 0} where
  abbrev pub take : ℕ → List A → List A
  take zero rows = []
  take (suc n) [] = []
  take (suc n) (row ∷ rows) = row ∷ take n rows

  abbrev pub select : (A → Bool) → List A → List A
  select p [] = []
  select p (row ∷ rows) = if p row then row ∷ select p rows else select p rows

-- `order by event_id limit $4`
unfoldable pub candidates :
    ℕ → StoredWorkScope → (EventType → Bool) → Str → ℕ → List EventRow → List EventRow
candidates now scope kinds owner limit rows =
    take limit (sort_by_key event_id_of (select (is_candidate now scope kinds owner) rows))

abbrev pub is_among : List EventRow → EventRow → Bool
is_among chosen row = any (λ c. c.event_id == row.event_id) chosen

abbrev pub claimed_row : ℕ → Str → List EventRow → EventRow → EventRow
claimed_row now owner chosen row = if is_among chosen row then leased now owner row else row

-- The two updates of a claim, on the whole table.
unfoldable pub claimed :
    ℕ → StoredWorkScope → (EventType → Bool) → Str → ℕ → List EventRow → List EventRow
claimed now scope kinds owner limit rows =
    let swept = map (dead_lettered now scope) rows in
    map (claimed_row now owner (candidates now scope kinds owner limit swept)) swept

-- The rows that the update returns.
unfoldable pub returned :
    ℕ → StoredWorkScope → (EventType → Bool) → Str → ℕ → List EventRow → List EventRow
returned now scope kinds owner limit rows =
    let swept = map (dead_lettered now scope) rows in
    select (is_among (candidates now scope kinds owner limit swept)) swept

-- A returned row with its job's upload. A row that has no partner is dropped by the join.
abbrev joined : Database → List EventRow → List (EventRow × UploadRow)
joined db [] = []
joined db (row ∷ rows) = elim (find_row (has_job row.scope row.job_id) db.jobs) [
  | none ↦ joined db rows
  | some job ↦ elim (find_row (has_upload row.scope job.upload_id) db.uploads) [
    | none ↦ joined db rows
    | some upload ↦ (row, upload) ∷ joined db rows
  ]
]

abbrev job_event_type : EventType → Result Error JobOutboxEventType
job_event_type EventType.accepted = ok JobOutboxEventType.accepted
job_event_type EventType.cancellation_requested = ok JobOutboxEventType.cancellation_requested
job_event_type _ = err invalid_outbox_event

-- The column of the number of pages: null is no i32, and a negative number no u32.
abbrev page_count_of : UploadRow → Result Error ℕ
page_count_of upload = elim upload.source [
  | none ↦ err database
  | some source ↦ elim source.parser_inspection.page_count [
    | pos n ↦ ok n
    | negsuc n ↦ err invalid_outbox_event
  ]
]

unfoldable pub stored_job_outbox_event : EventRow × UploadRow → Result Error StoredJobOutboxEvent
stored_job_outbox_event (row, upload) = do
  reject_if (row.event_id == 0) invalid_outbox_event
  job_id ← map_err (λ _. invalid_outbox_event) (new_job_id row.job_id.text)
  type ← job_event_type row.event_type
  page_count ← page_count_of upload
  reject_if (not (within 1 maximum_page_count page_count)) invalid_outbox_event
  ok (record {
    event_id = row.event_id;
    job_id = job_id;
    event_type = type;
    page_count = page_count;
  })

-- `map(stored_job_outbox_event).collect()`
unfoldable pub decode_events :
    List (EventRow × UploadRow) → Result Error (List StoredJobOutboxEvent)
decode_events [] = ok []
decode_events (row ∷ rows) =
    let rest = decode_events rows in
    stored_job_outbox_event row >>= λ event. rest >>= λ events. ok (event ∷ events)

-- `select exists(..)`
unfoldable pub has_pending : StoredWorkScope → Database → Bool
has_pending scope db = any pending db.outbox
  where
    pending : EventRow → Bool
    pending row =
        scope_eq row.scope scope
        && (is_job_event row.event_type
            && (is_open row && ltb row.delivery_attempts maximum_delivery_attempts))

abbrev pub update_pending : ℕ → StoredWorkScope → Database → Database
update_pending now scope db = set_work_scope_pending now scope dispatch (has_pending scope db) db

-- `limit` of a claim, which is between 1 and 100.
abbrev pub limit_of : I64 → ℕ
limit_of (pos n) = n
limit_of (negsuc n) = 0

abbrev pub with_claim :
    ℕ → StoredWorkScope → (EventType → Bool) → ClaimJobOutbox → Database → Database
with_claim now scope kinds claim db = record db {
  outbox = claimed now scope kinds claim.lease_owner (limit_of claim.limit) db.outbox;
}

abbrev is_empty_list : List (EventRow × UploadRow) → Bool
is_empty_list [] = true
is_empty_list (row ∷ rows) = false

unfoldable pub claim_job_outbox :
    ℕ
    → StoredWorkScope
    → ClaimJobOutbox
    → Database
    → Database × Result Error (List StoredJobOutboxEvent)
claim_job_outbox now scope claim db = validated db (validate_lease_owner claim.lease_owner) (
    branch (not (within_i64 1 100 claim.limit)) (db, err invalid_outbox_event)
      (let after = with_claim now scope is_job_event claim db in
        let rows =
          joined db
            (returned now scope is_job_event claim.lease_owner (limit_of claim.limit) db.outbox) in
        commit db (if is_empty_list rows then update_pending now scope after else after)
          (λ events. events) (decode_events rows)))

-- `product_id = $1 and tenant_id = $2 and event_id = $3`
abbrev pub has_event : StoredWorkScope → ℕ → EventRow → Bool
has_event scope id row = scope_eq row.scope scope && (row.event_id == id)

abbrev pub is_publishable : ℕ → Str → EventRow → Bool
is_publishable now owner row =
    is_open row
    && (is_owned owner row.delivery_lease_owner
        && is_lease_active now row.delivery_lease_expires_at)

abbrev pub published_row : ℕ → EventRow → EventRow
published_row now row = record row {
  published_at = some now;
  delivery_lease_owner = none;
  delivery_lease_expires_at = none;
}

abbrev published_before : EventRow → PublishJobOutboxOutcome
published_before row =
    if is_null row.published_at
    then PublishJobOutboxOutcome.lease_lost
    else PublishJobOutboxOutcome.existing

abbrev with_published : ℕ → StoredWorkScope → ℕ → Database → Database
with_published now scope id db = record db {
  outbox = update_row (has_event scope id) (published_row now) db.outbox;
}

abbrev is_positive : I64 → Bool
is_positive (pos n) = not (n == 0)
is_positive (negsuc n) = false

unfoldable pub publish_job_outbox :
    ℕ → StoredWorkScope → I64 → Str → Database → Database × Result Error PublishJobOutboxOutcome
publish_job_outbox now scope event_id owner db =
    let id = limit_of event_id in
    validated db (validate_lease_owner owner) (
      branch (not (is_positive event_id)) (db, err invalid_outbox_event)
        (found (find_row (has_event scope id) db.outbox) (db, ok PublishJobOutboxOutcome.not_found)
          λ row.
            branch (is_publishable now owner row)
              (
                update_pending now scope (with_published now scope id db),
                ok PublishJobOutboxOutcome.published,
              )
              (db, ok (published_before row))))
