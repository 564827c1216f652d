-- ===== src/Store/Outbox/Tests.antt =====
-- An event under the lease of one relay, a published one, and the calls of another relay.
use document_intelligence.Base.{◌≡◌, ◌≢◌, refl, List, [], ◌∷◌, some, none, true, arith}
use document_intelligence.Base.Text.{Str, codes, str_eq, str_eq_iff}
use document_intelligence.Domain.SemanticMemory.{pos}
use document_intelligence.Store.Tables.{Database, EventRow, EventType, find_row}
use document_intelligence.Store.Outbox.{has_event}
use document_intelligence.Store.Outbox.Deliveries.{
  DeliveryCall, emits, claims_jobs, claims_webhooks, publishes, run,
}
use document_intelligence.Store.Outbox.Leases.{closed-for_good, delivery_lease_protects}
use document_intelligence.Store.Tests.{scope, id_of_job, empty, event}

abbrev other : Str
other = codes "relay-2"

abbrev second_relay : List DeliveryCall
second_relay =
    claims_jobs 100 scope (record { lease_owner = other; limit = pos 10 })
    ∷ publishes 120 scope (pos 1) other
    ∷ emits 130 scope id_of_job EventType.cancellation_requested
    ∷ claims_webhooks 140 scope (record { lease_owner = other; limit = pos 10 })
    ∷ []

abbrev leased_db : Database
leased_db = record empty { outbox = event ∷ []; next_event_id = 2 }

abbrev published_event : EventRow
published_event = record event {
  published_at = some 50;
  delivery_lease_owner = none;
  delivery_lease_expires_at = none;
}

abbrev published_db : Database
published_db = record empty { outbox = published_event ∷ []; next_event_id = 2 }

closed-for_good_example :
    find_row (has_event scope 1) (run published_db second_relay).outbox ≡ some published_event
unfolding str_eq
closed-for_good_example =
    closed-for_good scope 1 published_event published_db second_relay refl
      (record { increasing = (tt, tt); below = (omega arith, tt) }) refl

-- The two relays have different names.
foreign : other ≢ codes "relay-1"
unfolding str_eq
foreign e =
    let same : str_eq other (codes "relay-1") ≡ true = (str_eq_iff other (codes "relay-1")).1 e in
    ground arith

delivery_lease_protects_example :
    find_row (has_event scope 1) (run leased_db second_relay).outbox ≡ some event
unfolding str_eq
delivery_lease_protects_example =
    delivery_lease_protects scope 1 (codes "relay-1") 200 event leased_db second_relay refl
      (record { increasing = (tt, tt); below = (omega arith, tt) })
      (record { open_ = refl; owner_is = refl; expiry_is = refl })
      ((foreign, omega arith), (foreign, (tt, ((foreign, omega arith), tt))))
