-- ===== src/PageWorkflow/Tests.antt =====
-- A job of two pages with two attempts each, and the theorems at its states.
use document_intelligence.Base.{
  ℕ, ◌-◌, ◌*◌, ◌≤◌, ◌<◌, ◌≡◌, ◌↔◌, ◌⊎◌, refl, true, false, List, [], ◌∷◌, arith, length, ok, err,
}
use document_intelligence.Base.Text.{codes, str_eq}
use document_intelligence.Base.Text.Decimal.{decimal}
use document_intelligence.Domain.Errors.{invalid_page_workflow, stale_page_task}
use document_intelligence.Domain.Ids.{JobId, new_job_id}
use document_intelligence.PageWorkflow.{
  PageWorkflow, PageTask, PageWorkflowStatus, pending, running, succeeded, new, status, claim_ready,
  active_progress, activity_key, record_success, record_retryable_failure, request_cancellation,
  try_from,
}
use document_intelligence.PageWorkflow.Active.{IsActive}
use document_intelligence.PageWorkflow.Invariant.{IsValid, try_from_iff}
use document_intelligence.PageWorkflow.Runs.{
  Operation, claim, succeed, fail_retryable, apply, run, try_from-run, new-IsValid, apply-IsValid,
}
use document_intelligence.PageWorkflow.Claims.{unsettled}
use document_intelligence.PageWorkflow.Granted.{Granted, claim_ready-Granted, claim_ready_cancelled}
use document_intelligence.PageWorkflow.Keys.{activity_key-injective}
use document_intelligence.PageWorkflow.Records.{
  success, retryable, record_report, Recorded, record_report_outcomes, report_once,
  report_cancelled,
}
use document_intelligence.PageWorkflow.Progress.{
  accepted_reports, accepted_reports_bounded, claim_ready-running, status-running,
}

abbrev job : JobId
job = record { text = codes "job_a" }

-- The key is written out, as `activity_key` gives it.
abbrev first_task : PageTask
first_task = record { page = 1; attempt = 1; activity_key = codes "ocr-job-job_a-page-1-attempt-1" }

abbrev second_task : PageTask
second_task = record {
  page = 2;
  attempt = 1;
  activity_key = codes "ocr-job-job_a-page-2-attempt-1";
}

abbrev fresh : PageWorkflow
fresh = record {
  job_id = job;
  max_attempts = 2;
  pages = pending 0 ∷ pending 0 ∷ [];
  cancelled = false;
}

abbrev claimed : PageWorkflow
claimed = record {
  job_id = job;
  max_attempts = 2;
  pages = running 1 ∷ running 1 ∷ [];
  cancelled = false;
}

abbrev stopped : PageWorkflow
stopped = record {
  job_id = job;
  max_attempts = 2;
  pages = running 1 ∷ running 1 ∷ [];
  cancelled = true;
}

fresh-new : new job 2 2 ≡ ok fresh
unfolding new
fresh-new = refl

keys : activity_key job 12 3 ≡ codes "ocr-job-job_a-page-12-attempt-3"
unfolding activity_key decimal
keys = refl

claims : claim_ready fresh 5 ≡ (claimed, ok (first_task ∷ second_task ∷ []))
unfolding claim_ready activity_key decimal
claims = refl

claims_one : (claim_ready fresh 1).1 ≡ ok (first_task ∷ [])
unfolding claim_ready activity_key decimal
claims_one = refl

abbrev script : List Operation
script = claim 5 ∷ succeed first_task ∷ fail_retryable second_task ∷ succeed first_task ∷ []

script_runs : (run fresh script).pages ≡ succeeded 1 ∷ pending 1 ∷ []
unfolding run apply claim_ready record_success record_retryable_failure active_progress activity_key
    str_eq decimal
script_runs = refl

fresh-IsValid : IsValid fresh
fresh-IsValid = new-IsValid job 2 2 fresh fresh-new

claimed-IsValid : IsValid claimed
claimed-IsValid = omega arith

try_from_iff_example :
    ((try_from claimed ≡ ok claimed) ↔ IsValid claimed)
    × ((try_from claimed ≡ ok claimed) ⊎ (try_from claimed ≡ err invalid_page_workflow))
try_from_iff_example = try_from_iff claimed

apply-IsValid_example : IsValid (apply fresh (claim 5))
apply-IsValid_example = apply-IsValid fresh (claim 5) fresh-IsValid

try_from-run_example : try_from (run fresh script) ≡ ok (run fresh script)
try_from-run_example = try_from-run job 2 2 fresh script fresh-new

claim_ready-Granted_example :
    (ts : List PageTask) × ((claim_ready fresh 5).1 ≡ ok ts)
    × Granted fresh (claim_ready fresh 5).0 5 ts
claim_ready-Granted_example =
    claim_ready-Granted fresh 5 fresh-IsValid refl (omega arith) (omega arith)

claim_ready_cancelled_example :
    ((claim_ready stopped 5).0 ≡ stopped)
    × (((claim_ready stopped 5).1 ≡ ok [])
        ⊎ ((claim_ready stopped 5).1 ≡ err invalid_page_workflow))
claim_ready_cancelled_example = claim_ready_cancelled stopped 5 refl

job_accepted : new_job_id (codes "job_a") ≡ ok job
unfolding new_job_id
job_accepted = refl

activity_key-injective_example : (job.text ≡ job.text) × (◌≡◌ {A = ℕ} 2 2) × (◌≡◌ {A = ℕ} 1 1)
activity_key-injective_example =
    activity_key-injective (codes "job_a") (codes "job_a") job job 2 2 1 1 job_accepted job_accepted
      refl

record_report_outcomes_example :
    ((record_report retryable claimed second_task).1 ≡ ok tt)
      × Recorded retryable claimed (record_report retryable claimed second_task).0 second_task
    ⊎ ((record_report retryable claimed second_task).1 ≡ err stale_page_task)
      × ((record_report retryable claimed second_task).0 ≡ claimed)
      × ¬ IsActive claimed second_task (second_task.page - 1)
record_report_outcomes_example = record_report_outcomes retryable claimed second_task

first_accepted : (record_report success claimed first_task).1 ≡ ok tt
unfolding record_report record_success active_progress activity_key str_eq decimal
first_accepted = refl

report_once_example :
    (record_report retryable (record_report success claimed first_task).0 first_task).1
    ≡ err stale_page_task
report_once_example = report_once success retryable claimed first_task first_accepted

report_cancelled_example :
    record_report success (request_cancellation claimed) first_task
    ≡ (request_cancellation claimed, err stale_page_task)
report_cancelled_example = report_cancelled success claimed first_task

status-running_example :
    (status claimed ≡ PageWorkflowStatus.running)
    ↔ ((claimed.cancelled ≡ false) × (0 < unsettled claimed.pages))
status-running_example = status-running claimed

claim_ready-running_example :
    (ts : List PageTask) × ((claim_ready fresh 1).1 ≡ ok ts)
    × ((status fresh ≡ PageWorkflowStatus.running) ↔ (0 < length ts))
claim_ready-running_example = claim_ready-running fresh 1 fresh-IsValid (omega arith) (omega arith)

accepted_reports_bounded_example : accepted_reports fresh script ≤ 2 * 2
accepted_reports_bounded_example = accepted_reports_bounded job 2 2 fresh script fresh-new
