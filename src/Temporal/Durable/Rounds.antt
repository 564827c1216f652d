-- ===== src/Temporal/Durable/Rounds.antt =====
-- One execution of `DurableDocumentWorkflow`: its rounds, up to the one that ends it.
use native.Mathlib.Nat.{add-zero, zero-add, suc-add}
use document_intelligence.Base.{
  ℕ, zero, suc, ◌+◌, ◌-◌, ◌≤◌, ◌<◌, ◌≡◌, refl, ap, List, [], ◌∷◌, ◌++◌, none, some, arith, Result,
  ok,
}
use document_intelligence.Temporal.{durable_iterations_per_run, max_durable_runner_iterations}
use document_intelligence.Temporal.Activities.{
  DurableActivityStatus, running, durable_activity_options,
}
use document_intelligence.Temporal.Durable.{
  DurableWorkflowRunInput, Call, run_pages, End, iteration_range, round, rounds, after_rounds,
  workflow_run,
}
use document_intelligence.Temporal.Durable.Runs.{IsRun}

-- The calls of `count` rounds in a row.
pub page_calls : ℕ → ℕ → List Call
page_calls zero iteration = []
page_calls (suc count) iteration = run_pages iteration ∷ page_calls count (iteration + 1)

pub page_calls-append : (m n x : ℕ) → page_calls m x ++ page_calls n (x + m) ≡ page_calls (m + n) x
unfolding page_calls
page_calls-append zero n x = rw (add-zero, zero-add)
page_calls-append (suc m) n x =
    let shifted : x + 1 + m ≡ x + suc m = omega arith in
    let tail : page_calls m (x + 1) ++ page_calls n (x + suc m) ≡ page_calls (m + n) (x + 1) =
      rw (← shifted) (page_calls-append m n (x + 1)) in
    rw suc-add (ap (λ (l : List Call). run_pages x ∷ l) tail)

-- The call of the round `q` is the last of `q` calls.
pub page_calls-last : (q : ℕ) → 1 ≤ q → page_calls (q - 1) 1 ++ run_pages q ∷ [] ≡ page_calls q 1
unfolding page_calls
page_calls-last q low =
    let place : 1 + (q - 1) ≡ q = omega arith in
    let count : q - 1 + 1 ≡ q = omega arith in
    let joined : page_calls (q - 1) 1 ++ run_pages (1 + (q - 1)) ∷ [] ≡ page_calls (q - 1 + 1) 1 =
      page_calls-append (q - 1) 1 1 in
    rw (place, count) at joined

module _ {F : Type 0} (run_checkpointed_pages : ℕ → Result F DurableActivityStatus)
    (finalize_document : ℕ → Result F (Unit {0})) where
  -- The pages are still running at every iteration from `low` to before `high`.
  abbrev pub Runs : ℕ → ℕ → Type 0
  Runs low high = (k : ℕ) → low ≤ k → k < high → run_checkpointed_pages k ≡ ok running

  round-running :
      (runs k : ℕ)
      → 1 ≤ k
      → k ≤ max_durable_runner_iterations
      → run_checkpointed_pages k ≡ ok running
      → round run_checkpointed_pages finalize_document runs k ≡ (run_pages k ∷ [], none)
  unfolding round durable_activity_options
  round-running runs k low high e = ground arith

  rounds-running :
      (runs count k : ℕ)
      → 1 ≤ k
      → k + count ≤ suc max_durable_runner_iterations
      → Runs k (k + count)
      → rounds run_checkpointed_pages finalize_document runs count k ≡ (page_calls count k, none)
  unfolding rounds page_calls
  rounds-running runs zero k low high h = refl
  rounds-running runs (suc count) k low high h = ground (
    arith,
    round-running runs k low (omega arith) (h k (omega arith) (omega arith)),
    rounds-running runs count (k + 1) (omega arith) (omega arith)
        (λ j a b. h j (omega arith) (omega arith)),
  )

  rounds-ended :
      (runs before count k : ℕ) (calls : List Call) (o : End F)
      → 1 ≤ k
      → k + before ≤ max_durable_runner_iterations
      → Runs k (k + before)
      → round run_checkpointed_pages finalize_document runs (k + before) ≡ (calls, some o)
      → before < count
      → rounds run_checkpointed_pages finalize_document runs count k
        ≡ (page_calls before k ++ calls, some o)
  unfolding rounds page_calls
  rounds-ended runs before zero k calls o low high h e l = absurd (omega arith)
  rounds-ended runs zero (suc count) k calls o low high h e l =
      let here : round run_checkpointed_pages finalize_document runs k ≡ (calls, some o) =
        rw add-zero at e in
      ground (arith, here)
  rounds-ended runs (suc before) (suc count) k calls o low high h e l =
      let shifted : k + suc before ≡ k + 1 + before = omega arith in
      ground (
        arith,
        round-running runs k low (omega arith) (h k (omega arith) (omega arith)),
        rounds-ended runs before count (k + 1) calls o (omega arith) (omega arith)
            (λ j a b. h j (omega arith) (omega arith)) (rw shifted at e) (omega arith),
      )

  range-fifty :
      (runs : ℕ) (r : DurableWorkflowRunInput)
      → IsRun runs r
      → (suc (iteration_range r).end - (iteration_range r).start ≡ durable_iterations_per_run)
        × ((iteration_range r).start ≡ r.next_iteration)
  unfolding iteration_range
  range-fifty runs r h = (omega (arith, h.iteration, h.few_runs), refl)

  -- Fifty running rounds, and another execution or the limit.
  pub workflow_run-running :
      (runs : ℕ) (r : DurableWorkflowRunInput)
      → IsRun runs r
      → Runs r.next_iteration (r.next_iteration + durable_iterations_per_run)
      → workflow_run run_checkpointed_pages finalize_document r
        ≡ (page_calls durable_iterations_per_run r.next_iteration, after_rounds r none)
  unfolding workflow_run
  workflow_run-running runs r h k =
      let (count, start) = range-fifty runs r h in
      rw (
        count,
        start,
        rounds-running r.run_number durable_iterations_per_run r.next_iteration
            (omega (arith, h.iteration)) (omega (arith, h.iteration, h.few_runs)) k,
      )

  -- The rounds before one that ends the execution, and this one.
  pub workflow_run-ended :
      (runs : ℕ) (r : DurableWorkflowRunInput) (q : ℕ) (calls : List Call) (o : End F)
      → IsRun runs r
      → r.next_iteration ≤ q
      → q < r.next_iteration + durable_iterations_per_run
      → Runs r.next_iteration q
      → round run_checkpointed_pages finalize_document r.run_number q ≡ (calls, some o)
      → workflow_run run_checkpointed_pages finalize_document r
        ≡ (page_calls (q - r.next_iteration) r.next_iteration ++ calls, o)
  unfolding workflow_run
  workflow_run-ended runs r q calls o h low near k e =
      let (count, start) = range-fifty runs r h in
      let place : r.next_iteration + (q - r.next_iteration) ≡ q = omega arith in
      let end =
        rounds-ended r.run_number (q - r.next_iteration) durable_iterations_per_run r.next_iteration
          calls o (omega (arith, h.iteration)) (omega (arith, h.iteration, h.few_runs))
          (λ j a b. k j a (omega arith)) (rw place e) (omega arith) in
      rw (count, start, end)
