-- ===== src/Temporal/Pages/Chain.antt =====
-- One execution of `OcrDocumentWorkflow` in crates/ocr-temporal/src/lib.rs: which pages it processes, and
-- how it goes on.
use native.Mathlib.Nat.{add-zero, zero-add, suc-add}
use document_intelligence.Base.{
  ℕ, zero, suc, min, ◌+◌, ◌-◌, ◌≤◌, ◌<◌, ◌≡◌, refl, ap, ◌∙◌, List, ◌∷◌, ◌++◌, none, some, arith,
  Result, ok, err,
}
use document_intelligence.Temporal.{pages_per_run, finished, continued, failed, upto}
use document_intelligence.Temporal.Pages.{
  WorkflowRunInput, WorkflowResultMetadata, page_range, next_run, process_pages, after_pages,
  workflow_run, run_chain,
}
use document_intelligence.Temporal.Pages.Inputs.{IsRun, next_run-IsRun}

pub upto-append : (m n x : ℕ) → upto m x ++ upto n (x + m) ≡ upto (m + n) x
upto-append zero n x = rw (add-zero, zero-add)
upto-append (suc m) n x =
    let shifted : x + 1 + m ≡ x + suc m = omega arith in
    let tail : upto m (x + 1) ++ upto n (x + suc m) ≡ upto (m + n) (x + 1) =
      rw (← shifted) (upto-append m n (x + 1)) in
    rw suc-add (ap (λ (l : List ℕ). x ∷ l) tail)

module _ {F : Type 0} (process_page : ℕ → Result F (Unit {0})) where
  -- Every page from `low` to before `high` is processed without a failure.
  abbrev pub Succeeds : ℕ → ℕ → Type 0
  Succeeds low high = (p : ℕ) → low ≤ p → p < high → process_page p ≡ ok tt

  process_pages-ok :
      (count page : ℕ)
      → Succeeds page (page + count)
      → process_pages process_page count page ≡ (upto count page, none)
  unfolding process_pages
  process_pages-ok zero page h = refl
  process_pages-ok (suc count) page h = ground (
    arith,
    h page (omega arith) (omega arith),
    process_pages-ok count (page + 1) (λ p l k. h p (omega arith) (omega arith)),
  )

  pub process_pages-failed :
      (before count page : ℕ) (f : F)
      → Succeeds page (page + before)
      → process_page (page + before) ≡ err f
      → before < count
      → process_pages process_page count page ≡ (upto before page, some f)
  unfolding process_pages
  process_pages-failed before zero page f h e l = absurd (omega arith)
  process_pages-failed zero (suc count) page f h e l =
      let here : process_page page ≡ err f = rw add-zero at e in ground (arith, here)
  process_pages-failed (suc before) (suc count) page f h e l =
      let shifted : page + suc before ≡ page + 1 + before = omega arith in
      ground (
        arith,
        h page (omega arith) (omega arith),
        process_pages-failed before count (page + 1) f (λ p l k. h p (omega arith) (omega arith))
            (rw shifted at e) (omega arith),
      )

  -- How many pages a run has.
  abbrev pub share : WorkflowRunInput → ℕ
  share r = min pages_per_run (suc r.page_count - r.next_page)

  pub range-share :
      (runs : ℕ) (r : WorkflowRunInput)
      → IsRun runs r
      → (suc (page_range r).end - (page_range r).start ≡ share r)
        × ((page_range r).start ≡ r.next_page)
  unfolding page_range
  range-share runs r h = (omega (arith, h.page_left, h.few_pages), refl)

  workflow_run-ok :
      (runs : ℕ) (r : WorkflowRunInput)
      → IsRun runs r
      → Succeeds r.next_page (r.next_page + share r)
      → workflow_run process_page r ≡ (upto (share r) r.next_page, after_pages r none)
  unfolding workflow_run
  workflow_run-ok runs r h k =
      let (count, start) = range-share runs r h in
      rw (count, start, process_pages-ok (share r) r.next_page k)

  pub run_chain-finished :
      (fuel : ℕ) (r : WorkflowRunInput) (ps : List ℕ) (m : WorkflowResultMetadata)
      → workflow_run process_page r ≡ (ps, finished m)
      → run_chain process_page (suc fuel) r ≡ some (ps, ok m)
  unfolding run_chain
  run_chain-finished fuel r ps m e = ground arith

  pub run_chain-failed :
      (fuel : ℕ) (r : WorkflowRunInput) (ps : List ℕ) (f : F)
      → workflow_run process_page r ≡ (ps, failed f)
      → run_chain process_page (suc fuel) r ≡ some (ps, err f)
  unfolding run_chain
  run_chain-failed fuel r ps f e = ground arith

  pub run_chain-continued :
      (fuel : ℕ) (r s : WorkflowRunInput) (ps qs : List ℕ) (x : Result F WorkflowResultMetadata)
      → workflow_run process_page r ≡ (ps, continued s)
      → run_chain process_page fuel s ≡ some (qs, x)
      → run_chain process_page (suc fuel) r ≡ some (ps ++ qs, x)
  unfolding run_chain
  run_chain-continued fuel r s ps qs x e k = ground arith

  -- The run that follows after fifty pages.
  abbrev pub following : WorkflowRunInput → WorkflowRunInput
  following r = record r { next_page = r.next_page + pages_per_run; run_number = r.run_number + 1 }

  pub next_run-following :
      (runs : ℕ) (r : WorkflowRunInput)
      → IsRun runs r
      → r.next_page + pages_per_run ≤ r.page_count
      → next_run r ≡ some (following r)
  next_run-following runs r h l = ground (arith, next_run-IsRun runs r h)

  next_run-last :
      (runs : ℕ) (r : WorkflowRunInput)
      → IsRun runs r
      → r.page_count < r.next_page + pages_per_run
      → next_run r ≡ none
  next_run-last runs r h l = ground (arith, next_run-IsRun runs r h)

  pub workflow_run-continued :
      (runs : ℕ) (r : WorkflowRunInput)
      → IsRun runs r
      → r.next_page + pages_per_run ≤ r.page_count
      → Succeeds r.next_page (r.next_page + pages_per_run)
      → workflow_run process_page r ≡ (upto pages_per_run r.next_page, continued (following r))
  workflow_run-continued runs r h l k =
      let full : share r ≡ pages_per_run = omega arith in
      workflow_run-ok runs r h (λ p a b. k p a (omega arith))
      ∙ rw full (ground (arith, next_run-following runs r h l))

  pub workflow_run-last :
      (runs : ℕ) (r : WorkflowRunInput)
      → IsRun runs r
      → r.page_count < r.next_page + pages_per_run
      → Succeeds r.next_page (suc r.page_count)
      → workflow_run process_page r ≡ (
        upto (suc r.page_count - r.next_page) r.next_page,
        finished (record { pages_processed = r.page_count; runs = r.run_number }),
      )
  workflow_run-last runs r h l k =
      let rest : share r ≡ suc r.page_count - r.next_page = omega arith in
      workflow_run-ok runs r h (λ p a b. k p a (omega (arith, h.page_left)))
      ∙ rw rest (ground (arith, next_run-last runs r h l))
