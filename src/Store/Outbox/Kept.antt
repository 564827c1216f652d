-- ===== src/Store/Outbox/Kept.antt =====
-- What a row of the outbox of crates/ocr-store/src/lib.rs needs so that no calls change it.
use document_intelligence.Base.{
  ℕ, ◌+◌, ◌<◌, ◌≡◌, inl, inr, refl, sym, ap, ◌∙◌, Bool, true, false, List, [], ◌∷◌, ◌++◌, map, some,
  arith, All, All-imp, if-holds, All-append, Result, IsIncreasing, Bool-cases,
}
use document_intelligence.Base.Text.{Str}
use document_intelligence.Store.Values.{Error, StoredWorkScope}
use document_intelligence.Store.Tables.{
  Database, EventRow, EventType, find_row, update_row, find_row-append, find_row-update_row,
  All-update_row,
}
use document_intelligence.Store.Transactions.{
  Leaves-end, Leaves-validated, Leaves-found, Leaves-branch, Leaves-commit,
}
use document_intelligence.Store.WorkScopes.{set_work_scope_pending}
use document_intelligence.Store.Jobs.{emit}
use document_intelligence.Store.Outbox.{
  claim_job_outbox, publish_job_outbox, dead_lettered, is_candidate, claimed_row, claimed,
  event_id_of, has_event, is_publishable, published_row, limit_of, is_job_event, update_pending,
}
use document_intelligence.Store.Outbox.Webhooks.{claim_webhook_outbox, is_webhook_event}
use document_intelligence.Store.Outbox.Deliveries.{
  emits, claims_jobs, claims_webhooks, publishes, DeliveryCall, step, run, IsOrdered, IsOrdered-map,
  dead_lettered-event_id, claimed_row-event_id, claimed-kept,
}

-- A call can do nothing to a row.
abbrev pub IsHarmless : EventRow → DeliveryCall → Type 0
IsHarmless row (emits now scope job type) = Unit
IsHarmless row (claims_jobs now scope claim) =
    (dead_lettered now scope row ≡ row)
    × (is_candidate now scope is_job_event claim.lease_owner row ≡ false)
IsHarmless row (claims_webhooks now scope claim) =
    (dead_lettered now scope row ≡ row)
    × (is_candidate now scope is_webhook_event claim.lease_owner row ≡ false)
IsHarmless row (publishes now scope id owner) = is_publishable now owner row ≡ false

IsIncreasing-update :
    (p : EventRow → Bool) (now : ℕ) (rows : List EventRow)
    → IsIncreasing event_id_of rows
    → IsIncreasing event_id_of (update_row p (published_row now) rows)
IsIncreasing-update p now [] h = tt
IsIncreasing-update p now (r ∷ rows) h = elim (Bool-cases (p r)) [
  | inl t ↦ (let done : IsIncreasing event_id_of (published_row now r ∷ rows) = h in rw t done)
  | inr t ↦
      (let done : IsIncreasing event_id_of (r ∷ update_row p (published_row now) rows) = (
        All-update_row p (λ row. r.event_id < row.event_id) (published_row now) rows h.0
            (λ x e b. b),
        IsIncreasing-update p now rows h.1,
      ) in
        rw t done)
]

IsOrdered-append :
    (rows : List EventRow) (next : ℕ) (new : EventRow)
    → IsOrdered rows next
    → new.event_id ≡ next
    → IsOrdered (rows ++ new ∷ []) (next + 1)
IsOrdered-append rows next new o e = record {
  increasing = increasing rows o.increasing o.below;
  below =
      All-append (λ row. row.event_id < next + 1) rows (new ∷ [])
        (All-imp (λ row. row.event_id < next) (λ row. row.event_id < next + 1)
          (λ row h. omega (arith, h)) rows o.below)
        (omega (arith, e), tt);
}
  where
    increasing :
        (rows : List EventRow)
        → IsIncreasing event_id_of rows
        → All (λ row. row.event_id < next) rows
        → IsIncreasing event_id_of (rows ++ new ∷ [])
    increasing [] h b = (tt, tt)
    increasing (r ∷ rows) h b = (
      All-append (λ y. r.event_id < y.event_id) rows (new ∷ []) h.0 (omega (arith, b.0, e), tt),
      increasing rows h.1 b.1,
    )

module _ (scope : StoredWorkScope) (id : ℕ) (row : EventRow) where
  -- The row is there, in a table in order.
  abbrev IsThere : List EventRow → ℕ → Type 0
  IsThere rows next = (find_row (has_event scope id) rows ≡ some row) × IsOrdered rows next

  abbrev Q : {A : Type 0} → Database → Result Error A → Type 0
  Q after r = IsThere after.outbox after.next_event_id

  claimed-IsThere :
      (now : ℕ) (s : StoredWorkScope) (kinds : EventType → Bool) (owner : Str) (limit : ℕ)
      (rows : List EventRow) (next : ℕ)
      → IsThere rows next
      → (dead_lettered now s row ≡ row) × (is_candidate now s kinds owner row ≡ false)
      → IsThere (claimed now s kinds owner limit rows) next
  unfolding claimed
  claimed-IsThere now s kinds owner limit rows next (e, o) (same, n) = (
    claimed-kept now s kinds owner limit scope id rows row o.increasing e same n,
    IsOrdered-map (claimed_row now owner _) (claimed_row-event_id now owner _)
        (map (dead_lettered now s) rows) next
        (IsOrdered-map (dead_lettered now s) (dead_lettered-event_id now s) rows next o),
  )

  step-IsThere :
      (db : Database) (call : DeliveryCall)
      → IsThere db.outbox db.next_event_id
      → IsHarmless row call
      → let after = step db call in IsThere after.outbox after.next_event_id
  unfolding step emit claim_job_outbox claim_webhook_outbox publish_job_outbox
      set_work_scope_pending
  step-IsThere db (emits now s job type) (e, o) h = (
    find_row-append (has_event scope id) db.outbox _ row e,
    IsOrdered-append db.outbox db.next_event_id _ o refl,
  )
  step-IsThere db (claims_jobs now s claim) there h =
      (Leaves-validated Q db _ _ (λ x. there)
        λ v.
          Leaves-branch Q _ _ _ (λ t. Leaves-end Q _ _ there)
            λ t.
              Leaves-commit Q _ _ _ _ (λ x. there)
                (λ x y.
                  let after =
                    claimed-IsThere now s is_job_event claim.lease_owner (limit_of claim.limit)
                      db.outbox db.next_event_id there h in
                  if-holds (λ d. IsThere d.outbox d.next_event_id) _ (update_pending now s _) _
                    after after)).holds
  step-IsThere db (claims_webhooks now s claim) there h =
      (Leaves-validated Q db _ _ (λ x. there)
        λ v.
          Leaves-branch Q _ _ _ (λ t. Leaves-end Q _ _ there)
            λ t.
              Leaves-commit Q _ _ _ _ (λ x. there)
                (λ x y.
                  claimed-IsThere now s is_webhook_event claim.lease_owner (limit_of claim.limit)
                    db.outbox db.next_event_id there h)).holds
  step-IsThere db (publishes now s i owner) there h =
      (Leaves-validated Q db _ _ (λ x. there)
        λ v.
          Leaves-branch Q _ _ _ (λ t. Leaves-end Q _ _ there)
            λ t.
              Leaves-found Q _ _ _ (λ e. Leaves-end Q _ _ there)
                λ other e.
                  Leaves-branch Q _ _ _ (λ t. Leaves-end Q _ _ (published other e t))
                    (λ t. Leaves-end Q _ _ there)).holds
    where
      published :
          (other : EventRow)
          → find_row (has_event s (limit_of i)) db.outbox ≡ some other
          → is_publishable now owner other ≡ true
          → IsThere
              (update_row (has_event s (limit_of i)) (published_row now) db.outbox)
              db.next_event_id
      published other e t = (
        elim (find_row-update_row (has_event scope id) (has_event s (limit_of i))
            (published_row now) db.outbox row other there.0 e refl) [
              | inl kept ↦ kept
              | inr (same, written) ↦ absurd (cc (sym t ∙ ap (is_publishable now owner) same ∙ h))
            ],
        record {
          increasing =
              IsIncreasing-update (has_event s (limit_of i)) now db.outbox there.1.increasing;
          below =
              All-update_row (has_event s (limit_of i)) (λ r. r.event_id < db.next_event_id)
                (published_row now) db.outbox there.1.below (λ x found b. b);
        },
      )

  pub run-IsThere :
      (db : Database) (calls : List DeliveryCall)
      → IsThere db.outbox db.next_event_id
      → All (IsHarmless row) calls
      → let after = run db calls in IsThere after.outbox after.next_event_id
  unfolding run
  run-IsThere db [] there h = there
  run-IsThere db (call ∷ calls) there h =
      run-IsThere (step db call) calls (step-IsThere db call there h.0) h.1
