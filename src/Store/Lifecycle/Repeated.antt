-- ===== src/Store/Lifecycle/Repeated.antt =====
-- A repeated request in `create` of crates/ocr-store/src/lib.rs gets the job of the first one.
use mathlib.Core.Path.{fun_ext}
use document_intelligence.Base.{
  ℕ, ◌≡◌, inl, inr, refl, sym, ap, subst, ◌∙◌, true, false, any, List, [], ◌∷◌, ◌++◌, Option, none,
  some, arith, ok, Result,
}
use document_intelligence.Base.Text.{str_eq, str_eq_refl}
use document_intelligence.Domain.Errors.{JobState}
use document_intelligence.Domain.Ids.{JobId, WebhookSubscriptionId}
use document_intelligence.PageWorkflow.{PageWorkflow}
use document_intelligence.Store.Values.{
  Error, StoredWorkScope, CreateJob, CreateOutcome, created, existing, StoredJob,
}
use document_intelligence.Store.Tables.{
  Database, JobRow, find_row, update_row, find_row-append, find_row-update_row, find_row-any,
  find_row-append_new,
}
use document_intelligence.Store.Transactions.{
  Leaves, Leaves-end, Leaves-found, Leaves-branch, Leaves-commit, found, branch, commit,
}
use document_intelligence.Store.WorkScopes.{register_work_scope}
use document_intelligence.Store.Jobs.{
  has_job, has_job_key, create, existing_job, accepted_job, stored_job, emit, with_status,
  webhook_eq,
}
use document_intelligence.Store.Lifecycle.{JobCall, step, run}
use document_intelligence.Store.Lifecycle.Steps.{step_cases}

webhook_eq_refl : (w : Option WebhookSubscriptionId) → webhook_eq w w ≡ true
webhook_eq_refl none = refl
webhook_eq_refl (some w) = str_eq_refl w.text

-- The row of a request with the key, which has what the request asked for.
pub record IsKnown (request : CreateJob) (id : JobId) (jobs : List JobRow) : Type 0 where
  pub row : JobRow
  pub is_there : find_row (has_job_key request) jobs ≡ some row
  pub digest : row.request_digest ≡ request.request_digest
  pub webhook : row.webhook_subscription_id ≡ request.webhook_subscription_id
  pub decodes :
      (state : JobState)
      → stored_job (with_status state row)
        ≡ ok (record { job_id = id; state = state; created_at = row.created_at })

module _ (written_len stored_len : PageWorkflow → ℕ) (request : CreateJob) (id : JobId) where
  step-IsKnown :
      (db : Database) (call : JobCall)
      → IsKnown request id db.jobs
      → IsKnown request id (step written_len stored_len db call).jobs
  step-IsKnown db call k =
      step_cases (λ jobs results. IsKnown request id jobs) db written_len stored_len call k
        (λ now other new. record {
          row = k.row;
          is_there = find_row-append (has_job_key request) db.jobs _ k.row k.is_there;
          digest = k.digest;
          webhook = k.webhook;
          decodes = k.decodes;
        })
        (λ s i other status e change nonfinal. moved s i other status e)
        (λ s i other command e change final new. moved s i other command.terminal_state e)
    where
      moved :
          (s : StoredWorkScope) (i : JobId) (other : JobRow) (status : JobState)
          → find_row (has_job s i) db.jobs ≡ some other
          → IsKnown request id (update_row (has_job s i) (with_status status) db.jobs)
      moved s i other status e =
          elim (find_row-update_row (has_job_key request) (has_job s i) (with_status status) db.jobs
            k.row other k.is_there e refl) [
              | inl same ↦ record {
                row = k.row;
                is_there = same;
                digest = k.digest;
                webhook = k.webhook;
                decodes = k.decodes;
              }
              | inr (same, written) ↦ record {
                row = with_status status k.row;
                is_there = written ∙ ap (λ r. some (with_status status r)) same;
                digest = k.digest;
                webhook = k.webhook;
                decodes = k.decodes;
              }
            ]

  run-IsKnown :
      (db : Database) (calls : List JobCall)
      → IsKnown request id db.jobs
      → IsKnown request id (run written_len stored_len db calls).jobs
  unfolding run
  run-IsKnown db [] k = k
  run-IsKnown db (call ∷ calls) k =
      run-IsKnown (step written_len stored_len db call) calls (step-IsKnown db call k)

-- The decoding of the identifier does not depend on the status.
stored_job-with_status :
    (row : JobRow) (job : StoredJob) (state : JobState)
    → stored_job row ≡ ok job
    → stored_job (with_status state row)
      ≡ ok (record { job_id = job.job_id; state = state; created_at = row.created_at })
unfolding stored_job
stored_job-with_status row job state d = ground (arith, d)

-- The answer to a request that is known.
abbrev pub IsExisting : JobId → Database → Database × Result Error CreateOutcome → Type 0
IsExisting id db x = (job : StoredJob) × (x ≡ (db, ok (existing job))) × (job.job_id ≡ id)

known-IsExisting :
    (request : CreateJob) (id : JobId) (db : Database)
    → IsKnown request id db.jobs
    → IsExisting id db (existing_job request db)
unfolding existing_job found branch commit
known-IsExisting request id db k =
    let digest =
      ap (λ d. str_eq d.text request.request_digest.text) k.digest
      ∙ str_eq_refl request.request_digest.text in
    let webhook =
      ap (λ w. webhook_eq w request.webhook_subscription_id) k.webhook
      ∙ webhook_eq_refl request.webhook_subscription_id in
    let stored = k.decodes k.row.status in
    (
      record { job_id = id; state = k.row.status; created_at = k.row.created_at },
      ground (arith, k.is_there, digest, webhook, stored),
      refl,
    )

known-create :
    (now : ℕ) (request : CreateJob) (id : JobId) (db : Database)
    → IsKnown request id db.jobs
    → IsExisting id db (create now request db)
unfolding create found branch
known-create now request id db k =
    let is_known = find_row-any (has_job_key request) db.jobs k.row k.is_there in
    let same : create now request db ≡ existing_job request db = ground (arith, is_known) in
    subst (IsExisting id db) (sym same) (known-IsExisting request id db k)

-- A request with the key, the digest and the webhook of another one from the same tenant. The
-- identifier of the job, the upload and the extraction may differ.
pub record IsAgain (request again : CreateJob) : Type 0 where
  pub tenant : again.tenant_id ≡ request.tenant_id
  pub product : again.product_id ≡ request.product_id
  pub key : again.idempotency_key ≡ request.idempotency_key
  pub same_digest : again.request_digest ≡ request.request_digest
  pub same_webhook : again.webhook_subscription_id ≡ request.webhook_subscription_id

same_key :
    (request again : CreateJob) (row : JobRow)
    → IsAgain request again
    → has_job_key request row ≡ has_job_key again row
same_key request again row a =
    ground (arith, ap (λ t. t.text) a.tenant, ap (λ p. p.text) a.product, ap (λ k. k.text) a.key)

-- A request that is known is known when it is made again.
again-IsKnown :
    (request again : CreateJob) (id : JobId) (jobs : List JobRow)
    → IsAgain request again
    → IsKnown request id jobs
    → IsKnown again id jobs
again-IsKnown request again id jobs a k =
    let keys : has_job_key request ≡ has_job_key again =
      fun_ext (λ row. same_key request again row a) in
    record {
      row = k.row;
      is_there = subst (λ p. find_row p jobs ≡ some k.row) keys k.is_there;
      digest = k.digest ∙ sym a.same_digest;
      webhook = k.webhook ∙ sym a.same_webhook;
      decodes = k.decodes;
    }

module _ (now : ℕ) (request : CreateJob) where
  -- A request that made a job is known from then on.
  abbrev Knows : Database → Result Error CreateOutcome → Type 0
  Knows after (ok (created job)) = IsKnown request job.job_id after.jobs
  Knows after _ = Unit

  new_job-IsKnown :
      (db : Database) (job : StoredJob)
      → any (has_job_key request) db.jobs ≡ false
      → stored_job (accepted_job now request) ≡ ok job
      → IsKnown request job.job_id (db.jobs ++ accepted_job now request ∷ [])
  unfolding accepted_job
  new_job-IsKnown db job n d =
      let own : has_job_key request (accepted_job now request) ≡ true = ground (
        arith,
        str_eq_refl request.product_id.text,
        str_eq_refl request.tenant_id.text,
        str_eq_refl request.idempotency_key.text,
      ) in
      record {
        row = accepted_job now request;
        is_there = find_row-append_new (has_job_key request) db.jobs _ n own;
        digest = refl;
        webhook = refl;
        decodes = λ state. stored_job-with_status (accepted_job now request) job state d;
      }

  create-Knows : (db : Database) → Leaves Knows (create now request db)
  unfolding create existing_job emit register_work_scope
  create-Knows db =
      let existing_ : Leaves Knows (existing_job request db) =
        Leaves-found Knows _ _ _ (λ e. Leaves-end Knows _ _ tt)
          λ row e.
            Leaves-branch Knows _ _ _ (λ t. Leaves-end Knows _ _ tt)
              λ t. Leaves-commit Knows _ _ _ _ (λ x. tt) (λ x y. tt) in
      Leaves-found Knows _ _ _ (λ e. existing_)
        λ source e.
          Leaves-branch Knows _ _ _ (λ t. existing_)
            λ n.
              Leaves-branch Knows _ _ _ (λ t. Leaves-end Knows _ _ tt)
                λ t. Leaves-commit Knows _ _ _ _ (λ x. tt) (λ job d. new_job-IsKnown db job n d)

  -- A request with the key, the digest and the webhook of one that made a job, from the same tenant
  -- and product, makes no second job, whatever identifier it asks for: after any calls of any
  -- processes it changes nothing and is answered with the job of the first one.
  pub create-again :
      (written_len stored_len : PageWorkflow → ℕ) (db : Database) (job : StoredJob)
      (calls : List JobCall) (later : ℕ) (again : CreateJob)
      → (create now request db).1 ≡ ok (created job)
      → IsAgain request again
      → let after = run written_len stored_len (create now request db).0 calls in
        IsExisting job.job_id after (create later again after)
  create-again written_len stored_len db job calls later again done same =
      let after = (create now request db).0 in
      let known : IsKnown request job.job_id after.jobs =
        subst (Knows after) done (create-Knows db).holds in
      let all_calls = run written_len stored_len after calls in
      known-create later again job.job_id all_calls (
        again-IsKnown request again job.job_id all_calls.jobs same
          (run-IsKnown written_len stored_len request job.job_id after calls known))
