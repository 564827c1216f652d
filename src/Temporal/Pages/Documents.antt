-- ===== src/Temporal/Pages/Documents.antt =====
-- Whole documents under `OcrDocumentWorkflow` of crates/ocr-temporal/src/lib.rs: the chain of runs that
-- `continue_as_new` makes.
use native.Mathlib.Nat.{add-zero}
use document_intelligence.Base.{
  ℕ, zero, suc, ◌+◌, ◌-◌, ◌*◌, ◌/◌, ◌≤◌, ◌<◌, ◌≡◌, refl, ap, ◌∙◌, inl, inr, ◌++◌, some, arith, leb,
  Result, ok, err, Bool-cases, leb→le,
}
use document_intelligence.PageWorkflow.{maximum_page_count}
use document_intelligence.Temporal.{workflow_schema_version, pages_per_run, failed, upto}
use document_intelligence.Temporal.Pages.{
  WorkflowInput, WorkflowRunInput, workflow_run, run_chain, first,
}
use document_intelligence.Temporal.Pages.Inputs.{IsRun, IsRun-next_run}
use document_intelligence.Temporal.Pages.Chain.{
  upto-append, Succeeds, process_pages-failed, share, range-share, run_chain-finished,
  run_chain-failed, run_chain-continued, following, next_run-following, workflow_run-continued,
  workflow_run-last,
}

module _ {F : Type 0} (process_page : ℕ → Result F (Unit {0})) where
  run_chain-ok :
      (fuel runs : ℕ) (r : WorkflowRunInput)
      → IsRun runs r
      → r.page_count < r.next_page + pages_per_run * fuel
      → Succeeds process_page r.next_page (suc r.page_count)
      → run_chain process_page fuel r
        ≡ some (
          upto (suc r.page_count - r.next_page) r.next_page,
          ok (record {
            pages_processed = r.page_count;
            runs = r.run_number + (r.page_count - r.next_page) / pages_per_run;
          }),
        )
  run_chain-ok zero runs r h l k = absurd (omega (arith, h.page_left))
  run_chain-ok (suc fuel) runs r h l k =
      elim (Bool-cases (leb (r.next_page + pages_per_run) r.page_count)) [
        | inl more ↦
            (let room : r.next_page + pages_per_run ≤ r.page_count = leb→le _ _ more in
              let s = following process_page r in
              let pages : upto pages_per_run r.next_page
                    ++ upto (suc r.page_count - s.next_page) s.next_page
                  ≡ upto (suc r.page_count - r.next_page) r.next_page =
                upto-append pages_per_run (suc r.page_count - s.next_page) r.next_page
                ∙ ap (λ (n : ℕ). upto n r.next_page) (omega arith) in
              let count : s.run_number + (r.page_count - s.next_page) / pages_per_run
                  ≡ r.run_number + (r.page_count - r.next_page) / pages_per_run =
                omega arith in
              run_chain-continued process_page fuel r s _ _ _
                (workflow_run-continued process_page runs r h room (λ p a b. k p a (omega arith)))
                (run_chain-ok fuel (suc runs) s
                  (IsRun-next_run runs r s h (next_run-following process_page runs r h room))
                  (omega arith) (λ p a b. k p (omega arith) b))
              ∙ rw (pages, count))
        | inr done ↦
            (let last : r.page_count < r.next_page + pages_per_run = ground arith in
              let none_left : (r.page_count - r.next_page) / pages_per_run ≡ 0 = omega arith in
              run_chain-finished process_page fuel r _ _
                (workflow_run-last process_page runs r h last k)
              ∙ rw (none_left, add-zero))
      ]

  workflow_run-failed :
      (runs : ℕ) (r : WorkflowRunInput) (q : ℕ) (f : F)
      → IsRun runs r
      → r.next_page ≤ q
      → q ≤ r.page_count
      → q < r.next_page + pages_per_run
      → Succeeds process_page r.next_page q
      → process_page q ≡ err f
      → workflow_run process_page r ≡ (upto (q - r.next_page) r.next_page, failed f)
  unfolding workflow_run
  workflow_run-failed runs r q f h low high near k e =
      let (count, start) = range-share process_page runs r h in
      let place : r.next_page + (q - r.next_page) ≡ q = omega arith in
      let stop =
        process_pages-failed process_page (q - r.next_page) (share process_page r) r.next_page f
          (λ p a b. k p a (omega arith)) (rw place e) (omega arith) in
      rw (count, start, stop)

  run_chain-fails :
      (fuel runs : ℕ) (r : WorkflowRunInput) (q : ℕ) (f : F)
      → IsRun runs r
      → r.page_count < r.next_page + pages_per_run * fuel
      → r.next_page ≤ q
      → q ≤ r.page_count
      → Succeeds process_page r.next_page q
      → process_page q ≡ err f
      → run_chain process_page fuel r ≡ some (upto (q - r.next_page) r.next_page, err f)
  run_chain-fails zero runs r q f h l low high k e = absurd (omega (arith, h.page_left))
  run_chain-fails (suc fuel) runs r q f h l low high k e =
      elim (Bool-cases (leb (r.next_page + pages_per_run) q)) [
        | inl more ↦
            (let far : r.next_page + pages_per_run ≤ q = leb→le _ _ more in
              let s = following process_page r in
              let room : r.next_page + pages_per_run ≤ r.page_count = omega arith in
              let pages : upto pages_per_run r.next_page ++ upto (q - s.next_page) s.next_page
                  ≡ upto (q - r.next_page) r.next_page =
                upto-append pages_per_run (q - s.next_page) r.next_page
                ∙ ap (λ (n : ℕ). upto n r.next_page) (omega arith) in
              run_chain-continued process_page fuel r s _ _ _
                (workflow_run-continued process_page runs r h room (λ p a b. k p a (omega arith)))
                (run_chain-fails fuel (suc runs) s q f
                  (IsRun-next_run runs r s h (next_run-following process_page runs r h room))
                  (omega arith) far high (λ p a b. k p (omega arith) b) e)
              ∙ rw pages)
        | inr near ↦
            run_chain-failed process_page fuel r _ f
              (workflow_run-failed runs r q f h low high (ground arith) k e)
      ]

  first-IsRun :
      (i : WorkflowInput)
      → i.schema_version ≡ workflow_schema_version
      → 1 ≤ i.page_count
      → i.page_count ≤ maximum_page_count
      → IsRun 0 (first i)
  unfolding first
  first-IsRun i v low high = record {
    version = v;
    few_pages = high;
    page = refl;
    page_left = low;
    number = refl;
  }

  -- If every page of a document of 1 to 1000 pages can be processed, its executions process the
  -- pages from 1 to the last in order, each once; at most 20 executions of 50 pages do.
  pub document_processed :
      (i : WorkflowInput)
      → i.schema_version ≡ workflow_schema_version
      → 1 ≤ i.page_count
      → i.page_count ≤ maximum_page_count
      → Succeeds process_page 1 (suc i.page_count)
      → run_chain process_page 20 (first i)
        ≡ some (
          upto i.page_count 1,
          ok (record {
            pages_processed = i.page_count;
            runs = (i.page_count + 49) / pages_per_run;
          }),
        )
  unfolding first
  document_processed i v low high k =
      let runs : 1 + (i.page_count - 1) / pages_per_run ≡ (i.page_count + 49) / pages_per_run =
        omega arith in
      let count : suc i.page_count - 1 ≡ i.page_count = omega arith in
      run_chain-ok 20 0 (first i) (first-IsRun i v low high) (omega arith) k ∙ rw (runs, count)

  -- If page q is the first that cannot be processed, exactly the pages before it are, in order, and
  -- its failure is the document's.
  pub document_failed :
      (i : WorkflowInput) (q : ℕ) (f : F)
      → i.schema_version ≡ workflow_schema_version
      → i.page_count ≤ maximum_page_count
      → 1 ≤ q
      → q ≤ i.page_count
      → Succeeds process_page 1 q
      → process_page q ≡ err f
      → run_chain process_page 20 (first i) ≡ some (upto (q - 1) 1, err f)
  unfolding first
  document_failed i q f v high low last k e =
      run_chain-fails 20 0 (first i) q f (first-IsRun i v (omega arith) high) (omega arith) low last
        k e
