-- ===== src/Temporal/Durable/Documents.antt =====
-- What a document comes to under `DurableDocumentWorkflow`.
use mathlib.Core.List.{append_assoc}
use mathlib.Core.Path.{subst}
use document_intelligence.Base.{
  ℕ, zero, suc, ◌+◌, ◌-◌, ◌/◌, ◌≤◌, ◌≡◌, ◌≢◌, ◌⊎◌, inl, inr, refl, sym, ap, ◌∙◌, List, [], ◌∷◌,
  ◌++◌, some, arith, Result, ok, err, Bool-cases, ◌==◌, ==_iff,
}
use document_intelligence.Temporal.{
  durable_iterations_per_run, max_durable_runner_iterations, finished, failed,
}
use document_intelligence.Temporal.Activities.{
  DurableActivityStatus, running, completed, partial, cancelled, iteration_limit,
  durable_activity_options, finalization_activity_options,
}
use document_intelligence.Temporal.Durable.{
  DurableActivityInput, DurableWorkflowResultMetadata, Call, run_pages, finalize, Failure, activity,
  own, End, round, finalize_step, run_chain, first,
}
use document_intelligence.Temporal.Durable.Runs.{first-IsRun}
use document_intelligence.Temporal.Durable.Rounds.{page_calls, page_calls-last, Runs}
use document_intelligence.Temporal.Durable.Chain.{settled, run_chain-limit, run_chain-ended}

abbrev metadata : DurableActivityStatus → ℕ → DurableWorkflowResultMetadata
metadata status q = record {
  status = status;
  runner_iterations = q;
  runs = suc ((q - 1) / durable_iterations_per_run);
}

-- What a document comes to whose pages were still running at each of the iterations before `q`,
-- given what the activities return at `q`: the calls made, and the result.
unfoldable pub document_end :
    {F : Type 0}
    → ℕ
    → Result F DurableActivityStatus
    → Result F (Unit {0})
    → List Call × Result (Failure F) DurableWorkflowResultMetadata
document_end q (err f) finalized = (page_calls q 1, err (activity f))
document_end q (ok cancelled) finalized = (page_calls q 1, ok (metadata cancelled q))
document_end q (ok running) finalized = (page_calls q 1, err (own iteration_limit))
document_end q (ok completed) (ok _) =
    (page_calls q 1 ++ finalize q ∷ [], ok (metadata completed q))
document_end q (ok completed) (err f) = (page_calls q 1 ++ finalize q ∷ [], err (activity f))
document_end q (ok partial) (ok _) = (page_calls q 1 ++ finalize q ∷ [], ok (metadata partial q))
document_end q (ok partial) (err f) = (page_calls q 1 ++ finalize q ∷ [], err (activity f))

module _ {F : Type 0} (run_checkpointed_pages : ℕ → Result F DurableActivityStatus)
    (finalize_document : ℕ → Result F (Unit {0})) where
  -- The calls of the last round, and its result.
  abbrev last_round : ℕ → Result F DurableActivityStatus → Result F (Unit {0}) → List Call × End F
  last_round q (err f) finalized = (run_pages q ∷ [], failed (activity f))
  last_round q (ok cancelled) finalized = (run_pages q ∷ [], finished (metadata cancelled q))
  last_round q (ok running) finalized = (run_pages q ∷ [], failed (own iteration_limit))
  last_round q (ok completed) (ok _) =
      (run_pages q ∷ finalize q ∷ [], finished (metadata completed q))
  last_round q (ok completed) (err f) = (run_pages q ∷ finalize q ∷ [], failed (activity f))
  last_round q (ok partial) (ok _) = (run_pages q ∷ finalize q ∷ [], finished (metadata partial q))
  last_round q (ok partial) (err f) = (run_pages q ∷ finalize q ∷ [], failed (activity f))

  -- The round of a page activity that does not report Running.
  round-last :
      (q : ℕ)
      → 1 ≤ q
      → q ≤ max_durable_runner_iterations
      → run_checkpointed_pages q ≢ ok running
      → round run_checkpointed_pages finalize_document
          (suc ((q - 1) / durable_iterations_per_run))
          q
        ≡ (
          (last_round q (run_checkpointed_pages q) (finalize_document q)).0,
          some (last_round q (run_checkpointed_pages q) (finalize_document q)).1,
        )
  unfolding round finalize_step durable_activity_options finalization_activity_options
  round-last q low high h = ground arith

  last_round-settled :
      (q : ℕ) (a : Result F DurableActivityStatus) (b : Result F (Unit {0}))
      → settled (last_round q a b).1 ≡ some (document_end q a b).1
  unfolding document_end
  last_round-settled q (err f) b = refl
  last_round-settled q (ok running) b = refl
  last_round-settled q (ok cancelled) b = refl
  last_round-settled q (ok completed) (ok _) = refl
  last_round-settled q (ok completed) (err f) = refl
  last_round-settled q (ok partial) (ok _) = refl
  last_round-settled q (ok partial) (err f) = refl

  -- With a finalization behind them.
  page_calls-finalize :
      (q : ℕ)
      → 1 ≤ q
      → page_calls (q - 1) 1 ++ run_pages q ∷ finalize q ∷ [] ≡ page_calls q 1 ++ finalize q ∷ []
  page_calls-finalize q low =
      sym (append_assoc (page_calls (q - 1) 1) (run_pages q ∷ []) (finalize q ∷ []))
      ∙ rw (page_calls-last q low)

  last_round-calls :
      (q : ℕ) (a : Result F DurableActivityStatus) (b : Result F (Unit {0}))
      → 1 ≤ q
      → page_calls (q - 1) 1 ++ (last_round q a b).0 ≡ (document_end q a b).0
  unfolding document_end
  last_round-calls q (err f) b low = page_calls-last q low
  last_round-calls q (ok running) b low = page_calls-last q low
  last_round-calls q (ok cancelled) b low = page_calls-last q low
  last_round-calls q (ok completed) (ok _) low = page_calls-finalize q low
  last_round-calls q (ok completed) (err f) low = page_calls-finalize q low
  last_round-calls q (ok partial) (ok _) low = page_calls-finalize q low
  last_round-calls q (ok partial) (err f) low = page_calls-finalize q low

  chain-last :
      (i : DurableActivityInput) (q : ℕ)
      → 1 ≤ q
      → q ≤ max_durable_runner_iterations
      → Runs run_checkpointed_pages finalize_document 1 q
      → run_checkpointed_pages q ≢ ok running
      → run_chain run_checkpointed_pages finalize_document 60 (first i)
        ≡ some (document_end q (run_checkpointed_pages q) (finalize_document q))
  unfolding first
  chain-last i q low high k h =
      let end = last_round q (run_checkpointed_pages q) (finalize_document q) in
      run_chain-ended run_checkpointed_pages finalize_document 60 0 (first i) q end.0 end.1 _
        (first-IsRun i) (omega arith) low high k (round-last q low high h)
        (last_round-settled q (run_checkpointed_pages q) (finalize_document q))
      ∙ rw (last_round-calls q (run_checkpointed_pages q) (finalize_document q) low)

  -- The iteration at which the pages are done, fail, or reach the limit.
  pub record IsLast (q : ℕ) : Type 0 where
    pub positive : 1 ≤ q
    pub in_limit : q ≤ max_durable_runner_iterations
    pub before : Runs run_checkpointed_pages finalize_document 1 q
    pub done :
        (run_checkpointed_pages q ≢ ok running)
        ⊎ ((run_checkpointed_pages q ≡ ok running) × (q ≡ max_durable_runner_iterations))

  running-cases : (r : Result F DurableActivityStatus) → (r ≡ ok running) ⊎ (r ≢ ok running)
  running-cases (err f) = inr (λ e. cc)
  running-cases (ok running) = inl refl
  running-cases (ok completed) = inr (λ e. cc)
  running-cases (ok partial) = inr (λ e. cc)
  running-cases (ok cancelled) = inr (λ e. cc)

  Runs-extend :
      (q : ℕ)
      → Runs run_checkpointed_pages finalize_document 1 q
      → run_checkpointed_pages q ≡ ok running
      → Runs run_checkpointed_pages finalize_document 1 (q + 1)
  Runs-extend q k more j low high = elim (Bool-cases (j == q)) [
    | inl same ↦
        subst (λ (n : ℕ). run_checkpointed_pages n ≡ ok running) (sym ((==_iff j q).0 same)) more
    | inr other ↦ k j low (ground arith)
  ]

  -- The search for it, from `q` on with `left` iterations after it.
  find-IsLast :
      (left q : ℕ)
      → 1 ≤ q
      → q + left ≡ max_durable_runner_iterations
      → Runs run_checkpointed_pages finalize_document 1 q
      → (l : ℕ) × IsLast l
  find-IsLast zero q low e k = elim (running-cases (run_checkpointed_pages q)) [
    | inl more ↦ (
      q,
      record { positive = low; in_limit = omega arith; before = k; done = inr (more, omega arith) },
    )
    | inr stop ↦ (q, record { positive = low; in_limit = omega arith; before = k; done = inl stop })
  ]
  find-IsLast (suc left) q low e k = elim (running-cases (run_checkpointed_pages q)) [
    | inl more ↦ find-IsLast left (q + 1) (omega arith) (omega arith) (Runs-extend q k more)
    | inr stop ↦ (q, record { positive = low; in_limit = omega arith; before = k; done = inl stop })
  ]

  chain-limit :
      (i : DurableActivityInput)
      → Runs run_checkpointed_pages finalize_document 1 (suc max_durable_runner_iterations)
      → run_chain run_checkpointed_pages finalize_document 60 (first i)
        ≡ some (page_calls max_durable_runner_iterations 1, err (own iteration_limit))
  unfolding first
  chain-limit i k =
      run_chain-limit run_checkpointed_pages finalize_document 60 0 (first i) (first-IsRun i)
        (omega arith) k

  end_at_limit :
      (q : ℕ) (b : Result F (Unit {0}))
      → q ≡ max_durable_runner_iterations
      → document_end q (ok running) b
        ≡ (page_calls max_durable_runner_iterations 1, err (own iteration_limit))
  unfolding document_end
  end_at_limit q b limit =
      ap
        (λ (n : ℕ).
          let x : List Call × Result (Failure F) DurableWorkflowResultMetadata =
            (page_calls n 1, err (own iteration_limit)) in
          x)
        limit

  IsLast-chain :
      (i : DurableActivityInput) (q : ℕ)
      → IsLast q
      → run_chain run_checkpointed_pages finalize_document 60 (first i)
        ≡ some (document_end q (run_checkpointed_pages q) (finalize_document q))
  IsLast-chain i q l = elim l.done [
    | inl stop ↦ chain-last i q l.positive l.in_limit l.before stop
    | inr (more, limit) ↦
        rw (more, end_at_limit q (finalize_document q) limit)
          (chain-limit i (λ j low high. Runs-extend q l.before more j low (omega arith)))
  ]

  -- Whatever the two activities return, at most sixty executions end the document. There is a last
  -- iteration, of at most 3000: before it the pages were running at each iteration, and at it they
  -- are not, or the limit is reached. The calls made, in their order, are one page call for each
  -- iteration up to it and, if the pages then are Completed or Partial, one finalization; the result
  -- is the status with this iteration and the number of executions, or the failure of the last call,
  -- or IterationLimit.
  pub durable_document :
      (i : DurableActivityInput)
      → (q : ℕ) × IsLast q
        × (run_chain run_checkpointed_pages finalize_document 60 (first i)
            ≡ some (document_end q (run_checkpointed_pages q) (finalize_document q)))
  durable_document i =
      let (q, l) =
        find-IsLast 2999 1 (omega arith) (omega arith) (λ j low high. absurd (omega arith)) in
      (q, l, IsLast-chain i q l)
