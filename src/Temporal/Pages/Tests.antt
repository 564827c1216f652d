-- ===== src/Temporal/Pages/Tests.antt =====
-- A document of 120 pages, and the theorems at it.
use document_intelligence.Base.{
  ℕ, ◌+◌, ◌-◌, ◌/◌, ◌≤◌, ◌<◌, ◌≡◌, ◌↔◌, ◌⊎◌, refl, true, false, List, [], ◌∷◌, none, some, arith,
  ◌==◌, if◌then◌else◌, Result, ok, err,
}
use document_intelligence.Base.Text.{codes, str_eq}
use document_intelligence.Temporal.{upto}
use document_intelligence.Temporal.Pages.{
  WorkflowInput, WorkflowRunInput, WorkflowRun, invalid_workflow_run_input, invalid_workflow_input,
  new_workflow_input, first, next_run, deserialize_run_input, expected_next_page, run_chain,
  new_workflow_plan, plan_from,
}
use document_intelligence.Temporal.Pages.Inputs.{Reached, start, next, deserialize-iff-Reached}
use document_intelligence.Temporal.Pages.Documents.{document_processed, document_failed}

abbrev book : WorkflowInput
book = record {
  schema_version = codes "1";
  product_id = record { text = codes "kora" };
  tenant_id = record { text = codes "ten_a" };
  job_id = record { text = codes "job_a" };
  page_count = 120;
}

abbrev second_run : WorkflowRunInput
second_run = record {
  schema_version = codes "1";
  product_id = record { text = codes "kora" };
  tenant_id = record { text = codes "ten_a" };
  job_id = record { text = codes "job_a" };
  page_count = 120;
  next_page = 51;
  run_number = 2;
}

book_made :
    new_workflow_input (λ i. some []) book.product_id book.tenant_id book.job_id 120 ≡ ok book
unfolding new_workflow_input
book_made = refl

book_too_long :
    new_workflow_input (λ i. none) book.product_id book.tenant_id book.job_id 120
    ≡ err invalid_workflow_input
unfolding new_workflow_input
book_too_long = refl

second_run_next : next_run (first book) ≡ some second_run
unfolding next_run first
second_run_next = refl

shifted_run_refused :
    deserialize_run_input (record second_run { next_page = 52 }) ≡ err invalid_workflow_run_input
unfolding deserialize_run_input expected_next_page str_eq
shifted_run_refused = refl

book-Reached : Reached (first book)
book-Reached = start book refl (omega arith) (omega arith) refl

second-Reached : Reached second_run
second-Reached = next book-Reached second_run_next

deserialize-iff-Reached_example :
    ((deserialize_run_input second_run ≡ ok second_run) ↔ Reached second_run)
    × ((deserialize_run_input second_run ≡ ok second_run)
        ⊎ (deserialize_run_input second_run ≡ err invalid_workflow_run_input))
deserialize-iff-Reached_example = deserialize-iff-Reached second_run

abbrev always : ℕ → Result ℕ (Unit {0})
always page = ok tt

abbrev no_page_70 : ℕ → Result ℕ (Unit {0})
no_page_70 page = if page == 70 then err 7 else ok tt

before_70 : (p : ℕ) → 1 ≤ p → p < 70 → no_page_70 p ≡ ok tt
before_70 p low high = ground arith

document_processed_example :
    run_chain always 20 (first book)
    ≡ some (upto 120 1, ok (record { pages_processed = 120; runs = (120 + 49) / 50 }))
document_processed_example =
    document_processed always book refl (omega arith) (omega arith) (λ p low high. refl)

document_failed_example : run_chain no_page_70 20 (first book) ≡ some (upto (70 - 1) 1, err 7)
document_failed_example =
    document_failed no_page_70 book 70 7 refl (omega arith) (omega arith) (omega arith) before_70
      refl

abbrev book_plan : List WorkflowRun
book_plan =
    record { first_page = 1; last_page = 50; continues_as_new = true }
    ∷ record { first_page = 51; last_page = 100; continues_as_new = true }
    ∷ record { first_page = 101; last_page = 120; continues_as_new = false }
    ∷ []

book_planned : new_workflow_plan 120 ≡ ok book_plan
unfolding new_workflow_plan plan_from
book_planned = refl
