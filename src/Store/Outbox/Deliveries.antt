-- ===== src/Store/Outbox/Deliveries.antt =====
-- Sequences of calls on the outbox of crates/ocr-store/src/lib.rs, by any number of processes, and
-- the order of its events.
use mathlib.Core.Option.{some-injective}
use document_intelligence.Base.{
  ℕ, zero, suc, ◌<◌, ◌≡◌, inl, inr, refl, sym, ap, ◌∙◌, Bool, true, false, List, [], ◌∷◌, map, some,
  arith, All, All-imp, if◌then◌else◌, ◌==◌, sort_by_key, sort_by_key-Permᴰ, All-Permᴰ, Permᴰ_sym,
  IsIncreasing, Bool-cases,
}
use document_intelligence.Base.Text.{Str}
use document_intelligence.Domain.Ids.{JobId}
use document_intelligence.Domain.SemanticMemory.{I64}
use document_intelligence.Store.Values.{StoredWorkScope, ClaimJobOutbox}
use document_intelligence.Store.Tables.{Database, EventRow, EventType, find_row, All-find_row}
use document_intelligence.Store.Jobs.{emit}
use document_intelligence.Store.Outbox.{
  claim_job_outbox, publish_job_outbox, dead_lettered, is_candidate, leased, candidates, take,
  select, is_among, claimed_row, claimed, event_id_of, has_event,
}
use document_intelligence.Store.Outbox.Webhooks.{claim_webhook_outbox}

pub data DeliveryCall : Type 0 where
  emits : ℕ → StoredWorkScope → JobId → EventType → DeliveryCall
  claims_jobs : ℕ → StoredWorkScope → ClaimJobOutbox → DeliveryCall
  claims_webhooks : ℕ → StoredWorkScope → ClaimJobOutbox → DeliveryCall
  publishes : ℕ → StoredWorkScope → I64 → Str → DeliveryCall

unfoldable pub step : Database → DeliveryCall → Database
unfolding emit claim_job_outbox claim_webhook_outbox publish_job_outbox
step db (emits now scope job type) = emit now scope job type db
step db (claims_jobs now scope claim) = (claim_job_outbox now scope claim db).0
step db (claims_webhooks now scope claim) = (claim_webhook_outbox now scope claim db).0
step db (publishes now scope id owner) = (publish_job_outbox now scope id owner db).0

unfoldable pub run : Database → List DeliveryCall → Database
unfolding step
run db [] = db
run db (call ∷ calls) = run (step db call) calls

-- The numbers of the events grow along the table, up to the next one.
pub record IsOrdered (rows : List EventRow) (next : ℕ) : Type 0 where
  pub increasing : IsIncreasing event_id_of rows
  pub below : All (λ row. row.event_id < next) rows

module _ (f : EventRow → EventRow)
    (keeps : (row : EventRow) → (f row).event_id ≡ row.event_id) where
  All-below-map :
      (next : ℕ) (rows : List EventRow)
      → All (λ row. row.event_id < next) rows
      → All (λ row. row.event_id < next) (map f rows)
  All-below-map next [] h = tt
  All-below-map next (r ∷ rows) h = (omega (arith, h.0, keeps r), All-below-map next rows h.1)

  All-above-map :
      (n m : ℕ) (rows : List EventRow)
      → n ≡ m
      → All (λ row. m < row.event_id) rows
      → All (λ row. n < row.event_id) (map f rows)
  All-above-map n m [] e h = tt
  All-above-map n m (r ∷ rows) e h = (omega (arith, h.0, keeps r, e), All-above-map n m rows e h.1)

  IsIncreasing-map :
      (rows : List EventRow) → IsIncreasing event_id_of rows → IsIncreasing event_id_of (map f rows)
  IsIncreasing-map [] h = tt
  IsIncreasing-map (r ∷ rows) h =
      (All-above-map (f r).event_id r.event_id rows (keeps r) h.0, IsIncreasing-map rows h.1)

  pub IsOrdered-map :
      (rows : List EventRow) (next : ℕ) → IsOrdered rows next → IsOrdered (map f rows) next
  IsOrdered-map rows next o = record {
    increasing = IsIncreasing-map rows o.increasing;
    below = All-below-map next rows o.below;
  }

pub dead_lettered-event_id :
    (now : ℕ) (scope : StoredWorkScope) (row : EventRow)
    → (dead_lettered now scope row).event_id ≡ row.event_id
unfolding dead_lettered
dead_lettered-event_id now scope row = ground arith

pub claimed_row-event_id :
    (now : ℕ) (owner : Str) (chosen : List EventRow) (row : EventRow)
    → (claimed_row now owner chosen row).event_id ≡ row.event_id
unfolding leased
claimed_row-event_id now owner chosen row = ground arith

dead_lettered-has_event :
    (now : ℕ) (scope s : StoredWorkScope) (id : ℕ) (row : EventRow)
    → has_event s id (dead_lettered now scope row) ≡ has_event s id row
unfolding dead_lettered
dead_lettered-has_event now scope s id row = ground arith

claimed_row-has_event :
    (now : ℕ) (owner : Str) (chosen : List EventRow) (s : StoredWorkScope) (id : ℕ) (row : EventRow)
    → has_event s id (claimed_row now owner chosen row) ≡ has_event s id row
unfolding leased
claimed_row-has_event now owner chosen s id row = ground arith

-- In a list in order, no other row has the number of a row that is found.
unique :
    (p : EventRow → Bool) (rows : List EventRow) (row : EventRow)
    → IsIncreasing event_id_of rows
    → find_row p rows ≡ some row
    → All (λ c. c.event_id ≡ row.event_id → c ≡ row) rows
unique p [] row h e = cc
unique p (r ∷ rows) row h e = elim (Bool-cases (p r)) [
  | inl t ↦
      (let same : r ≡ row = some-injective r row (ground (arith, t, e)) in
        (
          (λ d. same),
          All-imp (λ c. r.event_id < c.event_id) (λ c. c.event_id ≡ row.event_id → c ≡ row)
              (λ c above d. absurd (omega (arith, above, d, ap event_id_of same))) rows h.0,
        ))
  | inr t ↦
      (let there : find_row p rows ≡ some row = ground (arith, t, e) in
        let above = All-find_row p (λ c. r.event_id < c.event_id) rows row h.0 there in
        ((λ d. absurd (omega (arith, above, d))), unique p rows row h.1 there))
]

find_row-map :
    (p : EventRow → Bool) (f : EventRow → EventRow) (rows : List EventRow) (row : EventRow)
    → ((x : EventRow) → p (f x) ≡ p x)
    → find_row p rows ≡ some row
    → f row ≡ row
    → find_row p (map f rows) ≡ some row
find_row-map p f [] row k e same = cc
find_row-map p f (r ∷ rows) row k e same = elim (Bool-cases (p r)) [
  | inl t ↦
      (let first : r ≡ row = some-injective r row (ground (arith, t, e)) in
        let kept : some (f r) ≡ some row = ap (λ x. some (f x)) first ∙ ap some same in
        ground (arith, k r, t, kept))
  | inr t ↦ ground (arith, k r, t, find_row-map p f rows row k (ground (arith, t, e)) same)
]

module _ (P : EventRow → Type 0) (p : EventRow → Bool) where
  All-select : (rows : List EventRow) → All P rows → All (λ c. (p c ≡ true) × P c) (select p rows)
  All-select [] h = tt
  All-select (r ∷ rows) h = elim (Bool-cases (p r)) [
    | inl t ↦
        (let done : All (λ c. (p c ≡ true) × P c) (r ∷ select p rows) =
            ((t, h.0), All-select rows h.1) in
          rw t done)
    | inr t ↦ (let done = All-select rows h.1 in rw t done)
  ]

  All-take : (n : ℕ) (rows : List EventRow) → All P rows → All P (take n rows)
  All-take zero rows h = tt
  All-take (suc n) [] h = tt
  All-take (suc n) (r ∷ rows) h = (h.0, All-take n rows h.1)

-- A row that is no candidate is not chosen by its number.
not_among :
    (p : EventRow → Bool) (row : EventRow) (chosen : List EventRow)
    → p row ≡ false
    → All (λ c. (p c ≡ true) × (c.event_id ≡ row.event_id → c ≡ row)) chosen
    → is_among chosen row ≡ false
not_among p row [] n h = refl
not_among p row (c ∷ chosen) n h = elim (Bool-cases (c.event_id == row.event_id)) [
  | inl t ↦
      (let same : c ≡ row = h.0.1 (ground (arith, t)) in
        absurd (cc (sym n ∙ ap p (sym same) ∙ h.0.0)))
  | inr t ↦ ground (arith, t, not_among p row chosen n h.1)
]

module _ (now : ℕ) (scope : StoredWorkScope) (kinds : EventType → Bool) (owner : Str)
    (limit : ℕ) where
  -- A claim leaves a row alone that is not given up and no candidate.
  pub claimed-kept :
      (s : StoredWorkScope) (id : ℕ) (rows : List EventRow) (row : EventRow)
      → IsIncreasing event_id_of rows
      → find_row (has_event s id) rows ≡ some row
      → dead_lettered now scope row ≡ row
      → is_candidate now scope kinds owner row ≡ false
      → find_row (has_event s id) (claimed now scope kinds owner limit rows) ≡ some row
  unfolding claimed candidates
  claimed-kept s id rows row h e same n =
      let swept = map (dead_lettered now scope) rows in
      let found =
        find_row-map (has_event s id) (dead_lettered now scope) rows row
          (λ x. dead_lettered-has_event now scope s id x) e same in
      let order =
        IsIncreasing-map (dead_lettered now scope) (dead_lettered-event_id now scope) rows h in
      let candidate = is_candidate now scope kinds owner in
      let R : EventRow → Type 0 =
        λ c. (candidate c ≡ true) × (c.event_id ≡ row.event_id → c ≡ row) in
      let selected =
        All-select (λ c. c.event_id ≡ row.event_id → c ≡ row) candidate swept
          (unique (has_event s id) swept row order found) in
      let sorted =
        All-Permᴰ R (Permᴰ_sym (sort_by_key-Permᴰ event_id_of (select candidate swept))) selected in
      let chosen = take limit (sort_by_key event_id_of (select candidate swept)) in
      let among =
        not_among candidate row chosen n
          (All-take R candidate limit (sort_by_key event_id_of (select candidate swept)) sorted) in
      find_row-map (has_event s id) (claimed_row now owner chosen) swept row
        (λ x. claimed_row-has_event now owner chosen s id x) found
        (ap (λ b. if b then leased now owner row else row) among)
