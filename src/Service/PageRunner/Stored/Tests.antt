-- ===== src/Service/PageRunner/Stored/Tests.antt =====
-- A stored workflow of two pages and a processing that fails on every page.
use mathlib.Core.List.{Permᴰ}
use document_intelligence.Base.{
  ℕ, ◌≡◌, ◌≢◌, refl, sym, ap, subst, List, [], ◌∷◌, map, err, false, Permᴰ_refl,
}
use document_intelligence.Domain.Errors.{stale_page_task}
use document_intelligence.PageWorkflow.{PageWorkflow, PageTask, pending}
use document_intelligence.Temporal.Activities.{PageRunnerError}
use document_intelligence.Service.PageRunner.{
  PageProcessError, CheckpointedPageRunner, new_page_runner, run_once,
}
use document_intelligence.Service.PageRunner.Outcomes.{Outcome}
use document_intelligence.Service.PageRunner.Rounds.{tasks_of}
use document_intelligence.Service.PageRunner.Stored.{page_store, stored_round-no_domain}
use document_intelligence.Store.Values.{StoredPageArtifact}
use document_intelligence.Store.Tables.{Database}
use document_intelligence.Store.Tests.{scope, id_of_job, empty}

abbrev json_len : PageWorkflow → ℕ
json_len workflow = 100

abbrev workflow : PageWorkflow
workflow = record {
  job_id = id_of_job;
  max_attempts = 3;
  pages = pending 0 ∷ pending 0 ∷ [];
  cancelled = false;
}

abbrev db : Database
db = record empty {
  page_workflows =
      record { job_id = id_of_job; scope = scope; revision = 0; checkpoint = workflow } ∷ [];
}

abbrev fail : PageTask → Outcome StoredPageArtifact
fail t = (t, err PageProcessError.permanent)

abbrev fail_all : List PageTask → Database → Database × List (Outcome StoredPageArtifact)
fail_all ts s = (s, map fail ts)

fail_each : (ts : List PageTask) → tasks_of (map fail ts) ≡ ts
fail_each [] = refl
fail_each (t ∷ ts) = ap (λ l. t ∷ l) (fail_each ts)

abbrev runner : CheckpointedPageRunner
runner = record { batch_size = 2; concurrency = 1 }

stored_round-no_domain_example :
    (run_once (page_store json_len json_len scope id_of_job) fail_all runner db).1
    ≢ err (PageRunnerError.domain stale_page_task)
unfolding new_page_runner
stored_round-no_domain_example =
    stored_round-no_domain json_len json_len scope id_of_job fail_all runner
      (λ ts s. subst (Permᴰ ts) (sym (fail_each ts)) (Permᴰ_refl ts)) 2 1 refl db stale_page_task
