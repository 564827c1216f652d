-- ===== src/Store/Outbox/Leases.antt =====
-- What calls on the events of crates/ocr-store/src/lib.rs cannot change: an event that is published
-- or given up, and one that another process holds under a lease.
use document_intelligence.Base.{
  ℕ, ◌<◌, ◌≡◌, ◌≢◌, true, false, List, some, arith, All, All-imp, All-always,
}
use document_intelligence.Base.Text.{Str, str_eq-ne}
use document_intelligence.Store.Values.{StoredWorkScope}
use document_intelligence.Store.Tables.{Database, EventRow, find_row}
use document_intelligence.Store.Outbox.{dead_lettered, has_event, is_open}
use document_intelligence.Store.Outbox.Deliveries.{
  emits, claims_jobs, claims_webhooks, publishes, DeliveryCall, run, IsOrdered,
}
use document_intelligence.Store.Outbox.Kept.{IsHarmless, run-IsThere}

-- An event that will not be delivered any more.
abbrev pub IsClosed : EventRow → Type 0
IsClosed row = is_open row ≡ false

closed-IsHarmless : (row : EventRow) (call : DeliveryCall) → IsClosed row → IsHarmless row call
unfolding dead_lettered
closed-IsHarmless row (emits now scope job type) c = tt
closed-IsHarmless row (claims_jobs now scope claim) c = ground (arith, c)
closed-IsHarmless row (claims_webhooks now scope claim) c = ground (arith, c)
closed-IsHarmless row (publishes now scope id owner) c = ground (arith, c)

-- In a table whose events have growing numbers, an event that was published or given up stays as
-- it is over any further calls: it is never claimed or published again.
pub closed-for_good :
    (scope : StoredWorkScope) (id : ℕ) (row : EventRow) (db : Database) (calls : List DeliveryCall)
    → find_row (has_event scope id) db.outbox ≡ some row
    → IsOrdered db.outbox db.next_event_id
    → IsClosed row
    → find_row (has_event scope id) (run db calls).outbox ≡ some row
closed-for_good scope id row db calls e o c =
    (run-IsThere scope id row db calls (e, o)
      (All-always (IsHarmless row) (λ call. closed-IsHarmless row call c) calls)).0

-- An open event under the lease of an owner up to a time.
pub record IsHeld (owner : Str) (t : ℕ) (row : EventRow) : Type 0 where
  pub open_ : is_open row ≡ true
  pub owner_is : row.delivery_lease_owner ≡ some owner
  pub expiry_is : row.delivery_lease_expires_at ≡ some t

-- The call does not come from the owner of the lease, and comes before its end where it claims.
abbrev pub IsForeign : Str → ℕ → DeliveryCall → Type 0
IsForeign owner t (emits now scope job type) = Unit
IsForeign owner t (claims_jobs now scope claim) = (claim.lease_owner ≢ owner) × (now < t)
IsForeign owner t (claims_webhooks now scope claim) = (claim.lease_owner ≢ owner) × (now < t)
IsForeign owner t (publishes now scope id other) = other ≢ owner

foreign-IsHarmless :
    (owner : Str) (t : ℕ) (row : EventRow) (call : DeliveryCall)
    → IsHeld owner t row
    → IsForeign owner t call
    → IsHarmless row call
unfolding dead_lettered
foreign-IsHarmless owner t row (emits now scope job type) held far = tt
foreign-IsHarmless owner t row (claims_jobs now scope claim) held far =
    let differ = str_eq-ne claim.lease_owner owner far.0 in ground (arith, held, far.1, differ)
foreign-IsHarmless owner t row (claims_webhooks now scope claim) held far =
    let differ = str_eq-ne claim.lease_owner owner far.0 in ground (arith, held, far.1, differ)
foreign-IsHarmless owner t row (publishes now scope id other) held far =
    let differ = str_eq-ne other owner far in ground (arith, held, differ)

-- In a table whose events have growing numbers, while a process holds an open event under a lease,
-- no calls of other processes change it: they neither claim it nor publish it nor give it up.
pub delivery_lease_protects :
    (scope : StoredWorkScope) (id : ℕ) (owner : Str) (t : ℕ) (row : EventRow) (db : Database)
    (calls : List DeliveryCall)
    → find_row (has_event scope id) db.outbox ≡ some row
    → IsOrdered db.outbox db.next_event_id
    → IsHeld owner t row
    → All (IsForeign owner t) calls
    → find_row (has_event scope id) (run db calls).outbox ≡ some row
delivery_lease_protects scope id owner t row db calls e o held far =
    (run-IsThere scope id row db calls (e, o)
      (All-imp (IsForeign owner t) (IsHarmless row)
        (λ call. foreign-IsHarmless owner t row call held) calls far)).0
