-- ===== src/Store/Jobs/Results.antt =====
-- `commit_result` of crates/ocr-store/src/lib.rs.
use document_intelligence.Base.{
  ℕ, Bool, true, false, ◌&&◌, ◌||◌, not, [], ◌∷◌, ◌++◌, Option, none, some, if◌then◌else◌, any,
  Result, ok, err,
}
use document_intelligence.Base.Text.{str_eq}
use document_intelligence.Domain.Errors.{JobState, processing, validating, partial, completed}
use document_intelligence.Domain.JobLifecycle.{state_eq}
use document_intelligence.Domain.Ids.{JobId, WebhookSubscriptionId}
use document_intelligence.Store.Values.{
  Error, database, invalid_stored_result, StoredWorkScope, scope_eq, StoredResultLocator,
  CommitResult, CommitResultOutcome,
}
use document_intelligence.Store.Validation.{validate_locator}
use document_intelligence.Store.Tables.{Database, JobRow, EventType, ResultRow, find_row}
use document_intelligence.Store.Transactions.{validated, decoded, found, branch, commit}
use document_intelligence.Store.Jobs.{
  has_job, stored_job, emit, with_status, set_status, is_final, stored_result_locator, has_result,
}
use document_intelligence.Store.Uploads.Rows.{i64_eq}

-- the derived `PartialEq`
abbrev pub locator_eq : StoredResultLocator → StoredResultLocator → Bool
locator_eq a b =
    str_eq a.document_id.text b.document_id.text
    && (str_eq a.document_version.text b.document_version.text
        && (str_eq a.object_bucket b.object_bucket
            && (str_eq a.object_name b.object_name
                && (str_eq a.object_version b.object_version
                    && (str_eq a.object_digest b.object_digest
                        && i64_eq a.content_length b.content_length)))))

abbrev pub is_committable : JobState → Bool
is_committable processing = true
is_committable validating = true
is_committable _ = false

abbrev pub result_row : StoredWorkScope → JobId → StoredResultLocator → ResultRow
result_row scope id locator = record { job_id = id; scope = scope; locator = locator }

abbrev pub with_result : StoredWorkScope → JobId → StoredResultLocator → Database → Database
with_result scope id locator db = record db {
  results = db.results ++ result_row scope id locator ∷ [];
}

-- The unique constraints on an inserted row.
abbrev pub clashes : ResultRow → ResultRow → Bool
clashes new row =
    str_eq row.job_id.text new.job_id.text
    || (scope_eq row.scope new.scope
        && (str_eq row.locator.document_id.text new.locator.document_id.text
            && str_eq row.locator.document_version.text new.locator.document_version.text))

-- The type of the event of a final state.
abbrev final_event : JobState → EventType
final_event completed = EventType.completed
final_event partial = EventType.partial
final_event _ = EventType.review_required

-- The event for the subscriber of a webhook, where there is one.
abbrev pub notify :
    ℕ → StoredWorkScope → JobId → JobState → Option WebhookSubscriptionId → Database → Database
notify now scope id state none db = db
notify now scope id state (some subscription) db = emit now scope id (final_event state) db

-- `if job.state == JobState::Processing`
abbrev pub to_validating : StoredWorkScope → JobId → JobState → Database → Database
to_validating scope id state db =
    if state_eq state processing then set_status scope id validating db else db

abbrev is_validating : StoredWorkScope → JobId → JobRow → Bool
is_validating scope id row = has_job scope id row && state_eq row.status validating

-- The insert of the result, and the update to the final state that must find the job validating.
unfoldable pub finish :
    ℕ
    → StoredWorkScope
    → JobId
    → CommitResult
    → JobRow
    → Database
    → Database
    → Database × Result Error CommitResultOutcome
finish now scope id command job before db =
    branch (any (clashes (result_row scope id command.locator)) db.results) (before, err database)
      (found (find_row (is_validating scope id) db.jobs) (before, err invalid_stored_result)
        λ row.
          commit before
            (notify now scope id command.terminal_state job.webhook_subscription_id (
              set_status scope id command.terminal_state (with_result scope id command.locator db)))
            CommitResultOutcome.committed (stored_job (with_status command.terminal_state row)))

abbrev pub has_scoped_result : StoredWorkScope → JobId → ResultRow → Bool
has_scoped_result scope id row = scope_eq row.scope scope && has_result id row

unfoldable pub commit_result :
    ℕ
    → StoredWorkScope
    → JobId
    → CommitResult
    → Database
    → Database × Result Error CommitResultOutcome
commit_result now scope id command db = validated db (validate_locator command.locator) (
    branch (not (is_final command.terminal_state)) (db, err invalid_stored_result)
      (found (find_row (has_job scope id) db.jobs) (db, ok CommitResultOutcome.not_found)
        λ row. decoded db (stored_job row) λ job.
          found (find_row (has_scoped_result scope id) db.results)
            (branch (not (is_committable job.state)) (db, ok CommitResultOutcome.not_committable)
              (finish now scope id command row db (to_validating scope id job.state db)))
            (λ existing.
              commit db db
                (λ locator.
                  if locator_eq locator command.locator && state_eq job.state command.terminal_state
                  then CommitResultOutcome.existing job
                  else CommitResultOutcome.conflict)
                (stored_result_locator existing))))
