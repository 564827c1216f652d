-- ===== src/Temporal/Durable/Chain.antt =====
-- `DurableDocumentWorkflow`, over all the executions of one document.
use mathlib.Core.List.{append_assoc}
use document_intelligence.Base.{
  ℕ, zero, suc, ◌+◌, ◌-◌, ◌/◌, ◌≤◌, ◌<◌, ◌≡◌, inl, inr, refl, sym, ap, ◌∙◌, List, ◌++◌, Option,
  none, some, arith, Result, ok, err, Bool-cases, leb, leb→le,
}
use document_intelligence.Temporal.{
  durable_iterations_per_run, max_durable_runner_iterations, finished, continued, failed,
}
use document_intelligence.Temporal.Activities.{DurableActivityStatus, iteration_limit}
use document_intelligence.Temporal.Durable.{
  DurableWorkflowRunInput, DurableWorkflowResultMetadata, Call, Failure, own, End, round,
  after_rounds, workflow_run, run_chain,
}
use document_intelligence.Temporal.Durable.Runs.{IsRun, following, following-IsRun, next_run-IsRun}
use document_intelligence.Temporal.Durable.Rounds.{
  page_calls, page_calls-append, Runs, workflow_run-running, workflow_run-ended,
}

-- The result of an execution that does not continue.
abbrev pub settled :
    {F : Type 0} → End F → Option (Result (Failure F) DurableWorkflowResultMetadata)
settled (finished m) = some (ok m)
settled (failed f) = some (err f)
settled (continued next) = none

module _ {F : Type 0} (run_checkpointed_pages : ℕ → Result F DurableActivityStatus)
    (finalize_document : ℕ → Result F (Unit {0})) where
  run_chain-settled :
      (fuel : ℕ) (r : DurableWorkflowRunInput) (calls : List Call) (o : End F)
      (x : Result (Failure F) DurableWorkflowResultMetadata)
      → workflow_run run_checkpointed_pages finalize_document r ≡ (calls, o)
      → settled o ≡ some x
      → run_chain run_checkpointed_pages finalize_document (suc fuel) r ≡ some (calls, x)
  unfolding run_chain
  run_chain-settled fuel r calls o x e s = ground arith

  run_chain-continued :
      (fuel : ℕ) (r s : DurableWorkflowRunInput) (calls more : List Call)
      (x : Result (Failure F) DurableWorkflowResultMetadata)
      → workflow_run run_checkpointed_pages finalize_document r ≡ (calls, continued s)
      → run_chain run_checkpointed_pages finalize_document fuel s ≡ some (more, x)
      → run_chain run_checkpointed_pages finalize_document (suc fuel) r ≡ some (calls ++ more, x)
  unfolding run_chain
  run_chain-continued fuel r s calls more x e k = ground arith

  after_rounds-next :
      (runs : ℕ) (r : DurableWorkflowRunInput)
      → IsRun runs r
      → suc runs < 60
      → after_rounds {F = F} r none ≡ continued (following r)
  after_rounds-next runs r h l = ground (arith, next_run-IsRun runs r h)

  after_rounds-limit :
      (runs : ℕ) (r : DurableWorkflowRunInput)
      → IsRun runs r
      → 60 ≤ suc runs
      → after_rounds {F = F} r none ≡ failed (own iteration_limit)
  after_rounds-limit runs r h l = ground (arith, next_run-IsRun runs r h)

  -- A run whose pages are running throughout, before the last, is followed by the next.
  run_chain-following :
      (fuel runs : ℕ) (r : DurableWorkflowRunInput) (more : List Call)
      (x : Result (Failure F) DurableWorkflowResultMetadata)
      → IsRun runs r
      → suc runs < 60
      → Runs run_checkpointed_pages finalize_document r.next_iteration
          (r.next_iteration + durable_iterations_per_run)
      → run_chain run_checkpointed_pages finalize_document fuel (following r) ≡ some (more, x)
      → run_chain run_checkpointed_pages finalize_document (suc fuel) r
        ≡ some (page_calls durable_iterations_per_run r.next_iteration ++ more, x)
  run_chain-following fuel runs r more x h l k e =
      run_chain-continued fuel r (following r) _ more x
        (workflow_run-running run_checkpointed_pages finalize_document runs r h k
          ∙ rw (after_rounds-next runs r h l))
        e

  pub run_chain-limit :
      (fuel runs : ℕ) (r : DurableWorkflowRunInput)
      → IsRun runs r
      → 60 ≤ runs + fuel
      → Runs run_checkpointed_pages finalize_document r.next_iteration
          (suc max_durable_runner_iterations)
      → run_chain run_checkpointed_pages finalize_document fuel r
        ≡ some (
          page_calls (suc max_durable_runner_iterations - r.next_iteration) r.next_iteration,
          err (own iteration_limit),
        )
  run_chain-limit zero runs r h l k = absurd (omega (arith, h.few_runs))
  run_chain-limit (suc fuel) runs r h l k = elim (Bool-cases (leb (suc runs) 59)) [
    | inl more ↦
        (let few : suc runs < 60 = ground arith in
          let rest = suc max_durable_runner_iterations - (following r).next_iteration in
          let calls : page_calls durable_iterations_per_run r.next_iteration
                ++ page_calls rest (following r).next_iteration
              ≡ page_calls (suc max_durable_runner_iterations - r.next_iteration) r.next_iteration =
            page_calls-append durable_iterations_per_run rest r.next_iteration
            ∙ ap (λ (n : ℕ). page_calls n r.next_iteration) (omega (arith, h.iteration)) in
          run_chain-following fuel runs r _ _ h few (λ j a b. k j a (omega (arith, h.iteration)))
            (run_chain-limit fuel (suc runs) (following r) (following-IsRun runs r h few)
              (omega arith) (λ j a b. k j (omega arith) b))
          ∙ rw calls)
    | inr done ↦
        (let last : 60 ≤ suc runs = ground arith in
          let count : suc max_durable_runner_iterations - r.next_iteration
              ≡ durable_iterations_per_run =
            omega (arith, h.iteration, h.few_runs) in
          rw count (
            run_chain-settled fuel r _ (failed (own iteration_limit)) _
              (workflow_run-running run_checkpointed_pages finalize_document runs r h
                  (λ j a b. k j a (omega (arith, h.iteration, h.few_runs)))
                ∙ rw (after_rounds-limit runs r h last))
              refl))
  ]

  pub run_chain-ended :
      (fuel runs : ℕ) (r : DurableWorkflowRunInput) (q : ℕ) (calls : List Call) (o : End F)
      (x : Result (Failure F) DurableWorkflowResultMetadata)
      → IsRun runs r
      → 60 ≤ runs + fuel
      → r.next_iteration ≤ q
      → q ≤ max_durable_runner_iterations
      → Runs run_checkpointed_pages finalize_document r.next_iteration q
      → round run_checkpointed_pages finalize_document
          (suc ((q - 1) / durable_iterations_per_run))
          q
        ≡ (calls, some o)
      → settled o ≡ some x
      → run_chain run_checkpointed_pages finalize_document fuel r
        ≡ some (page_calls (q - r.next_iteration) r.next_iteration ++ calls, x)
  run_chain-ended zero runs r q calls o x h l low high k e s = absurd (omega (arith, h.few_runs))
  run_chain-ended (suc fuel) runs r q calls o x h l low high k e s =
      elim (Bool-cases (leb (r.next_iteration + 50) q)) [
        | inl more ↦
            (let far : r.next_iteration + 50 ≤ q = leb→le _ _ more in
              let few : suc runs < 60 = omega (arith, h.iteration) in
              let rest = q - (following r).next_iteration in
              let joined : page_calls durable_iterations_per_run r.next_iteration
                    ++ (page_calls rest (following r).next_iteration ++ calls)
                  ≡ page_calls (q - r.next_iteration) r.next_iteration ++ calls =
                sym (
                  append_assoc (page_calls durable_iterations_per_run r.next_iteration)
                    (page_calls rest (following r).next_iteration) calls)
                ∙ ap (λ (c : List Call). c ++ calls)
                    (page_calls-append durable_iterations_per_run rest r.next_iteration
                      ∙ ap (λ (n : ℕ). page_calls n r.next_iteration) (omega arith)) in
              run_chain-following fuel runs r _ _ h few (λ j a b. k j a (omega arith))
                (run_chain-ended fuel (suc runs) (following r) q calls o x
                  (following-IsRun runs r h few) (omega arith) far high
                  (λ j a b. k j (omega arith) b) e s)
              ∙ rw joined)
        | inr near ↦
            (let number : suc ((q - 1) / durable_iterations_per_run) ≡ r.run_number =
                ground (arith, h.iteration, h.number) in
              run_chain-settled fuel r _ o x
                (workflow_run-ended run_checkpointed_pages finalize_document runs r q calls o h low
                  (ground arith) k (rw number at e))
                s)
      ]
