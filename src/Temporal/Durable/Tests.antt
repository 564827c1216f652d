-- ===== src/Temporal/Durable/Tests.antt =====
-- A document whose pages are done at the third iteration, and the theorems at it.
use document_intelligence.Base.{
  ℕ, ◌≡◌, ◌↔◌, ◌⊎◌, refl, [], ◌∷◌, ◌++◌, none, some, ◌==◌, if◌then◌else◌, Result, ok, err,
}
use document_intelligence.Base.Text.{codes}
use document_intelligence.Base.Text.Decimal.{padded, decimal}
use document_intelligence.Temporal.Activities.{
  ActivityOptions, DurableActivityStatus, running, completed, durable_activity_options,
  finalization_activity_options, PageRunnerError, rate_limited,
}
use document_intelligence.Temporal.Durable.{
  DurableActivityInput, DurableWorkflowRunInput, run_pages, finalize, first, next_run, run_chain,
  workflow_run, rounds, round, finalize_step, iteration_range, deserialize_run_input,
  invalid_durable_workflow_run_input,
}
use document_intelligence.Temporal.Durable.Runs.{Reached, deserialize-iff-Reached_durable}
use document_intelligence.Temporal.Durable.Documents.{IsLast, document_end, durable_document}

abbrev book : DurableActivityInput
book = record {
  schema_version = codes "1";
  product_id = record { text = codes "kora" };
  tenant_id = record { text = codes "ten_a" };
  job_id = record { text = codes "job_a" };
}

abbrev third : ℕ → Result ℕ DurableActivityStatus
third k = if k == 3 then ok completed else ok running

abbrev stored : ℕ → Result ℕ (Unit {0})
stored k = ok tt

book_runs :
    run_chain third stored 60 (first book)
    ≡ some (
      run_pages 1 ∷ run_pages 2 ∷ run_pages 3 ∷ finalize 3 ∷ [],
      ok (record { status = completed; runner_iterations = 3; runs = 1 }),
    )
unfolding run_chain workflow_run rounds round finalize_step iteration_range first
    durable_activity_options finalization_activity_options
book_runs = refl

durable_document_example :
    (q : ℕ) × IsLast third stored q
    × (run_chain third stored 60 (first book) ≡ some (document_end q (third q) (stored q)))
durable_document_example = durable_document third stored book

abbrev second_run : DurableWorkflowRunInput
second_run = record {
  schema_version = codes "1";
  product_id = record { text = codes "kora" };
  tenant_id = record { text = codes "ten_a" };
  job_id = record { text = codes "job_a" };
  next_iteration = 51;
  run_number = 2;
}

second_run_next : next_run (first book) ≡ some second_run
unfolding next_run first
second_run_next = refl

deserialize-iff-Reached_durable_example :
    ((deserialize_run_input second_run ≡ ok second_run) ↔ Reached second_run)
    × ((deserialize_run_input second_run ≡ ok second_run)
        ⊎ (deserialize_run_input second_run ≡ err invalid_durable_workflow_run_input))
deserialize-iff-Reached_durable_example = deserialize-iff-Reached_durable second_run

abbrev quota : PageRunnerError ℕ
quota = rate_limited

abbrev page_options : ℕ → ActivityOptions
page_options k = record {
  start_to_close_timeout = 120;
  activity_id = codes "ocr-runner" ++ (codes "-" ++ padded 4 k);
  heartbeat_timeout = some 10;
  initial_interval = 1;
  maximum_interval = 30;
  maximum_attempts = 3;
}

abbrev finalize_options : ℕ → ActivityOptions
finalize_options k = record {
  start_to_close_timeout = 180;
  activity_id = codes "ocr-finalize-" ++ padded 4 k;
  heartbeat_timeout = none;
  initial_interval = 1;
  maximum_interval = 30;
  maximum_attempts = 3;
}

padding : (page_options 7).activity_id ≡ codes "ocr-runner-0007"
unfolding padded decimal
padding = refl
