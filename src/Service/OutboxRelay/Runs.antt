-- ===== src/Service/OutboxRelay/Runs.antt =====
-- What a run of the relay in crates/ocr-service/src/outbox_relay.rs has done, by its outcome.
use document_intelligence.Base.{
  ℕ, suc, ◌+◌, ◌≡◌, refl, ap, Bool, true, false, List, [], ◌∷◌, ◌++◌, length, arith, Result, ok,
  err,
}
use document_intelligence.Base.Text.{Str}
use document_intelligence.Store.Values.{
  StoredWorkScope, StoredJobOutboxEvent, PublishJobOutboxOutcome,
}
use document_intelligence.Service.OutboxRelay.{
  Relay, RelayOutcome, published, retryable, lease_lost, idle, WorkflowDispatchOutcome,
  WorkflowDispatchError, unavailable, dispatch_of, relay_step, relay_events,
}

-- The publication went through, or had gone through before.
abbrev pub is_done : PublishJobOutboxOutcome → Bool
is_done PublishJobOutboxOutcome.published = true
is_done PublishJobOutboxOutcome.existing = true
is_done _ = false

module _ {S E : Type 0} (relay : Relay S E) (sha256 : List ℕ → List ℕ) (scope : StoredWorkScope)
    (owner : Str) where
  -- Events that were dispatched and then published, one after another.
  pub data Delivered : S → List StoredJobOutboxEvent → S → Type 0 where
    none_left : (s : S) → Delivered s [] s
    one_more :
        (s after later last : S) (event : StoredJobOutboxEvent) (events : List StoredJobOutboxEvent)
        (how : WorkflowDispatchOutcome) (outcome : PublishJobOutboxOutcome)
        → relay.dispatch (dispatch_of relay sha256 scope owner event) s ≡ (after, ok how)
        → relay.publish_job_outbox event.event_id owner after ≡ (later, ok outcome)
        → is_done outcome ≡ true
        → Delivered later events last
        → Delivered s (event ∷ events) last

  -- The event at which a run stopped, with those that it had delivered.
  pub record StopsAt (P : StoredJobOutboxEvent → S → S → Type 0) (s : S)
      (events : List StoredJobOutboxEvent) (count : ℕ) (last : S) : Type 0 where
    pub done : List StoredJobOutboxEvent
    pub event : StoredJobOutboxEvent
    pub rest : List StoredJobOutboxEvent
    pub middle : S
    pub splits : events ≡ done ++ event ∷ rest
    pub delivered : Delivered s done middle
    pub counts : count ≡ length done
    pub stops : P event middle last

  abbrev Refused : StoredJobOutboxEvent → S → S → Type 0
  Refused event s last =
      relay.dispatch (dispatch_of relay sha256 scope owner event) s ≡ (last, err unavailable)

  abbrev Lost : StoredJobOutboxEvent → S → S → Type 0
  Lost event s last =
      (after : S) × (how : WorkflowDispatchOutcome) × (outcome : PublishJobOutboxOutcome)
      × (relay.dispatch (dispatch_of relay sha256 scope owner event) s ≡ (after, ok how))
      × (relay.publish_job_outbox event.event_id owner after ≡ (last, ok outcome))
      × (is_done outcome ≡ false)

  abbrev Failed : E → StoredJobOutboxEvent → S → S → Type 0
  Failed e event s last =
      (after : S) × (how : WorkflowDispatchOutcome) × (relay.dispatch
          (dispatch_of relay sha256 scope owner event) s
        ≡ (after, ok how))
      × (relay.publish_job_outbox event.event_id owner after ≡ (last, err e))

  -- What an outcome says of a run that began with some events published.
  abbrev pub Says : S → List StoredJobOutboxEvent → ℕ → S → Result E RelayOutcome → Type 0
  Says s events before last (ok idle) = ⊥
  Says s events before last (ok (published n)) =
      Delivered s events last × (n ≡ before + length events)
  Says s events before last (ok (retryable n)) =
      (k : ℕ) × (n ≡ before + k) × StopsAt Refused s events k last
  Says s events before last (ok (lease_lost n)) =
      (k : ℕ) × (n ≡ before + k) × StopsAt Lost s events k last
  Says s events before last (err e) = (k : ℕ) × StopsAt (Failed e) s events k last

  -- An event that went through, in front of what the rest of the run has done.
  module _ (s after later : S) (event : StoredJobOutboxEvent) (how : WorkflowDispatchOutcome)
      (outcome : PublishJobOutboxOutcome)
      (dispatched : relay.dispatch (dispatch_of relay sha256 scope owner event) s ≡ (after, ok how))
      (done_ : relay.publish_job_outbox event.event_id owner after ≡ (later, ok outcome))
      (is_done_ : is_done outcome ≡ true) where
    StopsAt-cons :
        (P : StoredJobOutboxEvent → S → S → Type 0) (events : List StoredJobOutboxEvent) (k : ℕ)
        (last : S)
        → StopsAt P later events k last
        → StopsAt P s (event ∷ events) (suc k) last
    StopsAt-cons P events k last h = record {
      done = event ∷ h.done;
      event = h.event;
      rest = h.rest;
      middle = h.middle;
      splits = ap (λ l. event ∷ l) h.splits;
      delivered =
          one_more s after later h.middle event h.done how outcome dispatched done_ is_done_
            h.delivered;
      counts = omega (arith, h.counts);
      stops = h.stops;
    }

    Says-cons :
        (events : List StoredJobOutboxEvent) (before : ℕ) (last : S) (r : Result E RelayOutcome)
        → Says later events (before + 1) last r
        → Says s (event ∷ events) before last r
    Says-cons events before last (ok idle) h = elim h [ ]
    Says-cons events before last (ok (published n)) (all_, e) = (
      one_more s after later last event events how outcome dispatched done_ is_done_ all_,
      omega (arith, e),
    )
    Says-cons events before last (ok (retryable n)) (k, e, h) =
        (suc k, omega (arith, e), StopsAt-cons Refused events k last h)
    Says-cons events before last (ok (lease_lost n)) (k, e, h) =
        (suc k, omega (arith, e), StopsAt-cons Lost events k last h)
    Says-cons events before last (err e) (k, h) = (suc k, StopsAt-cons (Failed e) events k last h)

  -- A run that stops at its first event.
  stops_first :
      (P : StoredJobOutboxEvent → S → S → Type 0) (s last : S) (event : StoredJobOutboxEvent)
      (events : List StoredJobOutboxEvent)
      → P event s last
      → StopsAt P s (event ∷ events) 0 last
  stops_first P s last event events h = record {
    done = [];
    event = event;
    rest = events;
    middle = s;
    splits = refl;
    delivered = none_left s;
    counts = refl;
    stops = h;
  }

  step-Says :
      (s : S) (event : StoredJobOutboxEvent) (events : List StoredJobOutboxEvent) (before : ℕ)
      (answer : S × Result WorkflowDispatchError WorkflowDispatchOutcome)
      (outcome : S × Result E PublishJobOutboxOutcome) (rest : S × Result E RelayOutcome)
      → relay.dispatch (dispatch_of relay sha256 scope owner event) s ≡ answer
      → relay.publish_job_outbox event.event_id owner answer.0 ≡ outcome
      → Says outcome.0 events (before + 1) rest.0 rest.1
      → let (last, r) = relay_step relay sha256 scope owner before answer outcome rest in
        Says s (event ∷ events) before last r
  step-Says s event events before (after, err unavailable) outcome rest d p h =
      (0, omega arith, stops_first Refused s after event events d)
  step-Says s event events before (after, ok how) (later, err e) rest d p h =
      (0, stops_first (Failed e) s later event events (after, how, d, p))
  step-Says s event events before (after, ok how) (later, ok PublishJobOutboxOutcome.published) rest
        d p h =
      Says-cons s after later event how PublishJobOutboxOutcome.published d p refl events before
        rest.0 rest.1 h
  step-Says s event events before (after, ok how) (later, ok PublishJobOutboxOutcome.existing) rest
        d p h =
      Says-cons s after later event how PublishJobOutboxOutcome.existing d p refl events before
        rest.0 rest.1 h
  step-Says s event events before (after, ok how) (later, ok PublishJobOutboxOutcome.lease_lost)
        rest d p h =
      (
        0,
        omega arith,
        stops_first Lost s later event events
            (after, how, PublishJobOutboxOutcome.lease_lost, d, p, refl),
      )
  step-Says s event events before (after, ok how) (later, ok PublishJobOutboxOutcome.not_found) rest
        d p h =
      (
        0,
        omega arith,
        stops_first Lost s later event events
            (after, how, PublishJobOutboxOutcome.not_found, d, p, refl),
      )

  -- The events are delivered one after another: each is dispatched before it is published, the run
  -- stops at the first that is refused or whose publication fails, and the number in the outcome is
  -- that of the events that went through.
  pub relay_events-Says :
      (events : List StoredJobOutboxEvent) (before : ℕ) (s : S)
      → let (last, r) = relay_events relay sha256 scope owner events before s in
        Says s events before last r
  unfolding relay_events
  relay_events-Says [] before s = (none_left s, omega arith)
  relay_events-Says (event ∷ events) before s =
      step-Says s event events before _ _ _ refl refl (relay_events-Says events (before + 1) _)
