-- ===== src/Temporal/Activities.antt =====
-- The activity options of crates/ocr-temporal/src/lib.rs, the statuses and errors of an activity,
-- and what Temporal is told to do about an error. Durations are in seconds.
pub mod Laws
use document_intelligence.Base.{
  ℕ, ◌+◌, ◌%◌, Bool, true, false, not, List, [], ◌∷◌, ◌++◌, Option, none, some, if◌then◌else◌,
  within, Result, ok, err,
}
use document_intelligence.Base.Text.{Str, codes}
use document_intelligence.Base.Text.Decimal.{padded}
use document_intelligence.Domain.Errors.{Error}
use document_intelligence.PageWorkflow.{PageWorkflowStatus, maximum_page_count}
use document_intelligence.Temporal.{max_durable_runner_iterations}

pub record ActivityPolicy : Type 0 where
  pub start_to_close_timeout : ℕ
  pub heartbeat_timeout : ℕ
  pub maximum_attempts : ℕ
  pub initial_backoff : ℕ
  pub maximum_backoff : ℕ

abbrev pub page_ocr : ActivityPolicy
page_ocr = record {
  start_to_close_timeout = 120;
  heartbeat_timeout = 10;
  maximum_attempts = 3;
  initial_backoff = 1;
  maximum_backoff = 30;
}

-- The fields of `ActivityOptions` that the program sets; every cancellation type is
-- `WaitCancellationCompleted`.
pub record ActivityOptions : Type 0 where
  pub start_to_close_timeout : ℕ
  pub activity_id : Str
  pub heartbeat_timeout : Option ℕ
  pub initial_interval : ℕ
  pub maximum_interval : ℕ
  pub maximum_attempts : ℕ

unfoldable pub activity_options : ℕ → Str → Option ActivityOptions
activity_options iteration activity_name =
    if not (within 1 max_durable_runner_iterations iteration)
    then none
    else some (record {
      start_to_close_timeout = page_ocr.start_to_close_timeout;
      activity_id = activity_name ++ (codes "-" ++ padded 4 iteration);
      heartbeat_timeout = some page_ocr.heartbeat_timeout;
      initial_interval = page_ocr.initial_backoff;
      maximum_interval = page_ocr.maximum_backoff;
      maximum_attempts = page_ocr.maximum_attempts;
    })

unfoldable pub durable_activity_options : ℕ → Option ActivityOptions
unfolding activity_options
durable_activity_options iteration = activity_options iteration (codes "ocr-runner")

unfoldable pub finalization_activity_options : ℕ → Option ActivityOptions
finalization_activity_options iteration =
    if not (within 1 max_durable_runner_iterations iteration)
    then none
    else some (record {
      start_to_close_timeout = 180;
      activity_id = codes "ocr-finalize-" ++ padded 4 iteration;
      heartbeat_timeout = none;
      initial_interval = page_ocr.initial_backoff;
      maximum_interval = page_ocr.maximum_backoff;
      maximum_attempts = page_ocr.maximum_attempts;
    })

pub data DurableActivityStatus : Type 0 where
  running completed partial cancelled : DurableActivityStatus

-- `PageRunnerOutcome` of crates/ocr-service/src/page_runner.rs
pub data PageRunnerOutcome : Type 0 where
  idle : PageWorkflowStatus → PageRunnerOutcome
  progressed : PageWorkflowStatus → PageRunnerOutcome

abbrev status_of : PageWorkflowStatus → DurableActivityStatus
status_of PageWorkflowStatus.running = running
status_of PageWorkflowStatus.completed = completed
status_of PageWorkflowStatus.partial = partial
status_of PageWorkflowStatus.cancelled = cancelled

-- `From<PageRunnerOutcome> for DurableActivityOutput`
unfoldable pub durable_output : PageRunnerOutcome → DurableActivityStatus
durable_output (idle status) = status_of status
durable_output (progressed status) = status_of status

pub data DurableExecutionErrorKind : Type 0 where
  provider_rate_limited dependency_unavailable revision_conflict : DurableExecutionErrorKind
  invalid_input scope_not_found iteration_limit : DurableExecutionErrorKind

unfoldable pub is_retryable : DurableExecutionErrorKind → Bool
is_retryable dependency_unavailable = true
is_retryable provider_rate_limited = true
is_retryable revision_conflict = true
is_retryable _ = false

-- What the failure tells Temporal: to try again after a delay, by its policy, or not at all.
pub data RetryAdvice : Type 0 where
  after_seconds : ℕ → RetryAdvice
  by_policy : RetryAdvice
  never : RetryAdvice

abbrev is_rate_limited : DurableExecutionErrorKind → Bool
is_rate_limited provider_rate_limited = true
is_rate_limited _ = false

-- `into_activity_error`, at a clock whose fraction of a second is `nanoseconds`, or none where the
-- clock stands before 1970.
unfoldable pub into_activity_error : Option ℕ → DurableExecutionErrorKind → RetryAdvice
unfolding is_retryable
into_activity_error clock kind =
    let jitter : ℕ = elim clock [ none ↦ 0 | some nanoseconds ↦ nanoseconds % 11 ] in
    if is_rate_limited kind
    then after_seconds (65 + jitter)
    else if is_retryable kind
    then by_policy
    else never

-- `PageRunnerError` of crates/ocr-service/src/page_runner.rs, its store error left abstract.
pub data PageRunnerError (S : Type 0) : Type 0 where
  invalid_configuration not_found retryable_conflict rate_limited : PageRunnerError S
  domain : Error → PageRunnerError S
  store : S → PageRunnerError S

unfoldable pub from_ref : {S : Type 0} → PageRunnerError S → DurableExecutionErrorKind
from_ref rate_limited = provider_rate_limited
from_ref retryable_conflict = revision_conflict
from_ref not_found = scope_not_found
from_ref invalid_configuration = invalid_input
from_ref (domain e) = invalid_input
from_ref (store e) = dependency_unavailable
