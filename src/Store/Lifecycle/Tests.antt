-- ===== src/Store/Lifecycle/Tests.antt =====
-- One accepted upload and its job, with calls of several processes.
use document_intelligence.Base.{ℕ, ◌≡◌, refl, List, [], ◌∷◌, arith, ok}
use document_intelligence.Base.Text.{codes, str_eq, len, bytes, strip_prefix}
use document_intelligence.Domain.Errors.{JobState}
use document_intelligence.Domain.Ids.{
  new_job_id, new_document_id, new_document_version, validated_id, is_canonical_sha256,
}
use document_intelligence.PageWorkflow.{PageWorkflow}
use document_intelligence.Store.Values.{CreateJob, StoredJob, ResultLookup}
use document_intelligence.Store.Validation.{validate_locator, valid_digest, valid_object_version}
use document_intelligence.Store.Tables.{Database}
use document_intelligence.Store.Transactions.{validated, decoded, found, branch, commit}
use document_intelligence.Store.Jobs.{
  accepted_job, create, existing_job, find_result, stored_job, stored_result_locator,
}
use document_intelligence.Store.Jobs.Results.{commit_result, finish}
use document_intelligence.Store.Lifecycle.{JobCall, creates, cancels, commits, run}
use document_intelligence.Store.Lifecycle.Refinement.{Becomes, run-Refines}
use document_intelligence.Store.Lifecycle.Results.{Consistent, run-Consistent}
use document_intelligence.Store.Lifecycle.Committed.{commit_result-find_result}
use document_intelligence.Store.Lifecycle.Repeated.{IsExisting, create-again}
use document_intelligence.Store.Tests.{
  scope, id_of_job, empty, accepted_upload, job_of, request, locator, commit_completed,
}

abbrev written_len : PageWorkflow → ℕ
written_len workflow = 100

abbrev later_calls : List JobCall
later_calls = cancels 60 scope id_of_job ∷ commits 70 scope id_of_job commit_completed ∷ []

abbrev source_db : Database
source_db = record empty { uploads = accepted_upload ∷ [] }

abbrev processing_db : Database
processing_db = record empty { jobs = job_of JobState.processing ∷ [] }

run-Refines_example :
    Becomes scope id_of_job
      (job_of JobState.processing)
      (run written_len written_len processing_db later_calls).jobs
unfolding str_eq
run-Refines_example =
    run-Refines written_len written_len scope id_of_job processing_db later_calls
      (job_of JobState.processing) (ground arith, tt) refl

run-Consistent_example :
    let after = run written_len written_len source_db (creates 40 request ∷ later_calls) in
    Consistent after.jobs after.results
run-Consistent_example =
    run-Consistent written_len written_len source_db (creates 40 request ∷ later_calls)
      (record { distinct = tt; settled = tt; owned = tt })

abbrev completed_job : StoredJob
completed_job = record { job_id = id_of_job; state = JobState.completed; created_at = 30 }

abbrev committed_db : Database
committed_db = (commit_result 50 scope id_of_job commit_completed processing_db).0

commit_result-find_result_example :
    find_result scope id_of_job (run written_len written_len committed_db later_calls)
    ≡ ok (ResultLookup.ready locator)
unfolding commit_result finish validated found branch commit decoded validate_locator valid_digest
    valid_object_version stored_job stored_result_locator new_job_id new_document_id
    new_document_version validated_id is_canonical_sha256 strip_prefix len bytes str_eq
commit_result-find_result_example =
    commit_result-find_result written_len written_len 50 scope id_of_job commit_completed
      processing_db completed_job later_calls refl refl

abbrev first_job : StoredJob
first_job = record { job_id = id_of_job; state = JobState.accepted; created_at = 40 }

abbrev created_db : Database
created_db = (create 40 request source_db).0

-- The request once more, as a client repeats it: for a job of another identifier.
abbrev repeated : CreateJob
repeated = record request { job_id = record { text = codes "job_2" } }

create-again_example :
    let after = run written_len written_len created_db later_calls in
    IsExisting id_of_job after (create 80 repeated after)
unfolding create existing_job accepted_job found branch commit stored_job new_job_id validated_id
    strip_prefix len bytes str_eq
create-again_example =
    create-again 40 request written_len written_len source_db first_job later_calls 80 repeated refl
      (record {
        tenant = refl;
        product = refl;
        key = refl;
        same_digest = refl;
        same_webhook = refl;
      })
