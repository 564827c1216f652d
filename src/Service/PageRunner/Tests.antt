-- ===== src/Service/PageRunner/Tests.antt =====
-- A store with one row and a processing of pages whose first attempt is rate limited, and the
-- theorems for them.
use mathlib.Core.List.{Permᴰ}
use document_intelligence.Base.{
  ℕ, ◌+◌, ◌≡◌, ◌≢◌, ◌∙◌, refl, sym, ap, subst, false, List, [], ◌∷◌, ◌++◌, map, Option, some, arith,
  if◌then◌else◌, ◌==◌, Result, ok, err, Bool-cases, inl, inr, Permᴰ_refl,
}
use document_intelligence.Base.Text.{codes, str_eq}
use document_intelligence.Base.Text.Decimal.{decimal}
use document_intelligence.Domain.Errors.{Error, stale_page_task}
use document_intelligence.PageWorkflow.{
  PageWorkflow, PageTask, PageWorkflowStatus, pending, task, try_from, claim_ready,
  record_retryable_failure, record_success, active_progress, activity_key, status,
}
use document_intelligence.PageWorkflow.Invariant.{IsValid, try_from_iff}
use document_intelligence.Temporal.Activities.{PageRunnerOutcome, PageRunnerError}
use document_intelligence.Service.PageRunner.{
  PageProcessError, PageStore, StoredPageWorkflow, SavePageWorkflowOutcome, CheckpointedPageRunner,
  new_page_runner, record_outcomes, run_once,
}
use document_intelligence.Service.PageRunner.Outcomes.{
  Outcome, IsRecorded, artifacts_of, any_limited,
}
use document_intelligence.Service.PageRunner.Rounds.{tasks_of, record_claimed}
use document_intelligence.Service.PageRunner.Errors.{Reliable, run_once-no_domain}

record Row : Type 0 where
  workflow : PageWorkflow
  revision : ℕ
  artifacts : List ℕ

abbrev stored : Row → PageWorkflow → StoredPageWorkflow
stored row w = record { workflow = w; revision = row.revision }

abbrev decoded : Row → Result Error PageWorkflow → Result Error (Option StoredPageWorkflow)
decoded row (ok w) = ok (some (stored row w))
decoded row (err e) = err e

abbrev table : PageStore Row Error ℕ
table = record {
  load_page_workflow = λ row. (row, decoded row (try_from row.workflow));
  save_page_workflow_with_artifacts = λ revision w artifacts row.
      if revision == row.revision
      then (
        record {
          workflow = w;
          revision = row.revision + 1;
          artifacts = row.artifacts ++ artifacts;
        },
        ok (SavePageWorkflowOutcome.saved (record { workflow = w; revision = row.revision + 1 })),
      )
      else (row, ok SavePageWorkflowOutcome.conflict);
}

abbrev process_page : PageTask → Outcome ℕ
process_page t = (t, if t.attempt == 1 then err PageProcessError.rate_limited else ok t.page)

abbrev process_pages : List PageTask → Row → Row × List (Outcome ℕ)
process_pages ts row = (row, map process_page ts)

abbrev runner : CheckpointedPageRunner
runner = record { batch_size = 2; concurrency = 1 }

abbrev job : PageWorkflow
job = record {
  job_id = record { text = codes "job_a" };
  max_attempts = 2;
  pages = pending 0 ∷ pending 0 ∷ pending 0 ∷ [];
  cancelled = false;
}

abbrev row : Row
row = record { workflow = job; revision = 0; artifacts = [] }

-- The first round is rate limited, the second has two pages, and the row has both.
first_rounds :
    ((run_once table process_pages runner row).1 ≡ err PageRunnerError.rate_limited)
    × ((run_once table process_pages runner (run_once table process_pages runner row).0).1
        ≡ ok (PageRunnerOutcome.progressed PageWorkflowStatus.running))
    × ((run_once table process_pages runner (run_once table process_pages runner row).0).0.artifacts
        ≡ 1 ∷ 2 ∷ [])
unfolding run_once try_from claim_ready record_retryable_failure record_success active_progress
    str_eq activity_key decimal status
first_rounds = (refl, refl, refl)

workflow_of : Result Error (Option StoredPageWorkflow) → PageWorkflow
workflow_of (ok (some r)) = r.workflow
workflow_of _ = job

table_loads :
    (s : Row) (r : StoredPageWorkflow)
    → (table.load_page_workflow s).1 ≡ ok (some r)
    → IsValid r.workflow
unfolding workflow_of
table_loads s r h = elim (try_from_iff s.workflow).1 [
  | inl e ↦
      (let same : s.workflow ≡ r.workflow = ap workflow_of (sym (ap (decoded s) e) ∙ h) in
        subst IsValid same ((try_from_iff s.workflow).0.0 e))
  | inr e ↦ absurd (cc (sym (ap (decoded s) e) ∙ h))
]

saved_workflow : Result Error SavePageWorkflowOutcome → PageWorkflow
saved_workflow (ok (SavePageWorkflowOutcome.saved r)) = r.workflow
saved_workflow _ = job

table_saves :
    (revision : ℕ) (w : PageWorkflow) (artifacts : List ℕ) (s : Row) (r : StoredPageWorkflow)
    → (table.save_page_workflow_with_artifacts revision w artifacts s).1
      ≡ ok (SavePageWorkflowOutcome.saved r)
    → r.workflow ≡ w
unfolding saved_workflow
table_saves revision w artifacts s r h = elim (Bool-cases (revision == s.revision)) [
  | inl e ↦ sym (ap saved_workflow (rw e at h))
  | inr e ↦ absurd (cc (rw e at h))
]

process_pages_each : (ts : List PageTask) → tasks_of (map process_page ts) ≡ ts
process_pages_each [] = refl
process_pages_each (t ∷ ts) = ap (λ l. t ∷ l) (process_pages_each ts)

table-Reliable : Reliable table process_pages
table-Reliable = record {
  loads_valid = table_loads;
  saves_given = table_saves;
  processes_each = λ ts s. subst (Permᴰ ts) (sym (process_pages_each ts)) (Permᴰ_refl ts);
}

run_once-no_domain_example :
    (run_once table process_pages runner row).1 ≢ err (PageRunnerError.domain stale_page_task)
unfolding new_page_runner
run_once-no_domain_example =
    run_once-no_domain table process_pages runner table-Reliable 2 1 refl row stale_page_task

abbrev first_task : PageTask
first_task = task job.job_id 1 1

abbrev second_task : PageTask
second_task = task job.job_id 2 1

-- The second page is done before the first.
abbrev outcomes : List (Outcome ℕ)
outcomes = (second_task, err PageProcessError.permanent) ∷ (first_task, ok 7) ∷ []

job-IsValid : IsValid job
job-IsValid = record {
  some_attempts = omega arith;
  few_attempts = omega arith;
  some_pages = omega arith;
  few_pages = omega arith;
  well_formed = (omega arith, (omega arith, (omega arith, tt)));
}

claimed : (claim_ready job 2).1 ≡ ok (first_task ∷ second_task ∷ [])
unfolding claim_ready
claimed = refl

record_claimed_example :
    (w' : PageWorkflow) × (record_outcomes (claim_ready job 2).0 [] false outcomes
      ≡ ok (w', artifacts_of outcomes, any_limited 2 outcomes))
    × IsRecorded (claim_ready job 2).0 w' outcomes
record_claimed_example =
    record_claimed job 2 (first_task ∷ second_task ∷ []) outcomes job-IsValid refl (omega arith)
      (omega arith) claimed (Permᴰ.swap refl refl)
