-- ===== src/Store/Lifecycle/Committed.antt =====
-- What `commit_result` of crates/ocr-store/src/lib.rs has committed is what `find_result` finds from
-- then on.
use document_intelligence.Base.{
  ℕ, ◌≡◌, inl, inr, refl, sym, ap, subst, ◌∙◌, Bool, true, false, any, List, [], ◌∷◌, ◌++◌,
  if◌then◌else◌, if-holds, ◌&&◌, Option, none, some, arith, ok, Result,
}
use document_intelligence.Base.Text.{str_eq, str_eq_iff}
use document_intelligence.Domain.Errors.{JobState, processing, validating}
use document_intelligence.Domain.JobLifecycle.{state_eq}
use document_intelligence.Domain.Ids.{JobId, WebhookSubscriptionId}
use document_intelligence.PageWorkflow.{PageWorkflow}
use document_intelligence.Store.Values.{
  Error, StoredWorkScope, CommitResult, CommitResultOutcome, committed, ResultLookup,
  StoredResultLocator, StoredJob,
}
use document_intelligence.Store.Tables.{
  Database, JobRow, ResultRow, find_row, update_row, find_row-append, find_row-update_row,
  find_row-update_self, find_row-holds, update_row_twice,
}
use document_intelligence.Store.Transactions.{
  Leaves, Leaves-end, Leaves-validated, Leaves-decoded, Leaves-found, Leaves-branch, Leaves-commit,
}
use document_intelligence.Store.Jobs.{
  has_job, with_status, set_status, is_final, has_result, find_result, stored_result_locator, emit,
}
use document_intelligence.Store.Jobs.Results.{
  commit_result, finish, notify, with_result, locator_eq, result_row, clashes,
}
use document_intelligence.Store.Lifecycle.{JobCall, Change, step, run}
use document_intelligence.Store.Lifecycle.Steps.{step_cases}
use document_intelligence.Store.Lifecycle.Results.{Change-nonfinal}

-- A job that is final, with its result.
pub record HasResult (scope : StoredWorkScope) (id : JobId) (locator : StoredResultLocator)
    (jobs : List JobRow) (results : List ResultRow) : Type 0 where
  pub row : JobRow
  pub is_there : find_row (has_job scope id) jobs ≡ some row
  pub final : is_final row.status ≡ true
  pub result : ResultRow
  pub result_there : find_row (has_result row.job_id) results ≡ some result
  pub locator_is : result.locator ≡ locator

module _ (written_len stored_len : PageWorkflow → ℕ) (scope : StoredWorkScope) (id : JobId)
    (locator : StoredResultLocator) where
  step-HasResult :
      (db : Database) (call : JobCall)
      → HasResult scope id locator db.jobs db.results
      → let after = step written_len stored_len db call in
        HasResult scope id locator after.jobs after.results
  step-HasResult db call h =
      step_cases (HasResult scope id locator) db written_len stored_len call h
        (λ now request new.
          moved (find_row-append (has_job scope id) db.jobs _ h.row h.is_there) h.result_there)
        (λ s i other status e change nonfinal.
          moved (kept s i other status e change) h.result_there)
        (λ s i other command e change final new.
          moved (kept s i other command.terminal_state e change)
            (find_row-append (has_result h.row.job_id) db.results _ h.result h.result_there))
    where
      moved :
          {jobs : List JobRow} {results : List ResultRow}
          → find_row (has_job scope id) jobs ≡ some h.row
          → find_row (has_result h.row.job_id) results ≡ some h.result
          → HasResult scope id locator jobs results
      moved there result_there = record {
        row = h.row;
        is_there = there;
        final = h.final;
        result = h.result;
        result_there = result_there;
        locator_is = h.locator_is;
      }

      kept :
          (s : StoredWorkScope) (i : JobId) (other : JobRow) (status : JobState)
          → find_row (has_job s i) db.jobs ≡ some other
          → Change other.status status
          → find_row (has_job scope id) (update_row (has_job s i) (with_status status) db.jobs)
            ≡ some h.row
      kept s i other status e change =
          elim (find_row-update_row (has_job scope id) (has_job s i) (with_status status) db.jobs
            h.row other h.is_there e refl) [
              | inl same ↦ same
              | inr (same, written) ↦ absurd (
                  cc (
                    sym (Change-nonfinal other.status status change)
                    ∙ ap (λ r. is_final r.status) same
                    ∙ h.final))
            ]

  run-HasResult :
      (db : Database) (calls : List JobCall)
      → HasResult scope id locator db.jobs db.results
      → let after = run written_len stored_len db calls in
        HasResult scope id locator after.jobs after.results
  unfolding run
  run-HasResult db [] h = h
  run-HasResult db (call ∷ calls) h =
      run-HasResult (step written_len stored_len db call) calls (step-HasResult db call h)

-- The decoding of a result reads the locator only.
decoded_again :
    (scope : StoredWorkScope) (id : JobId) (r : ResultRow) (locator : StoredResultLocator)
    → r.locator ≡ locator
    → stored_result_locator (result_row scope id locator) ≡ ok locator
    → stored_result_locator r ≡ ok locator
unfolding stored_result_locator
decoded_again scope id r locator same valid =
    let moved : stored_result_locator r ≡ stored_result_locator (result_row scope id locator) =
      ap (λ l. stored_result_locator (result_row scope id l)) same in
    moved ∙ valid

-- A result that clashes with none is found by its job.
new_result :
    (scope : StoredWorkScope) (id job_id : JobId) (locator : StoredResultLocator)
    (results : List ResultRow)
    → job_id.text ≡ id.text
    → any (clashes (result_row scope id locator)) results ≡ false
    → find_row (has_result job_id) (results ++ result_row scope id locator ∷ [])
      ≡ some (result_row scope id locator)
new_result scope id job_id locator [] same n =
    let own = (str_eq_iff id.text job_id.text).1 (sym same) in ground (arith, own)
new_result scope id job_id locator (r ∷ rs) same n =
    let other : str_eq r.job_id.text job_id.text ≡ false =
      ap (str_eq r.job_id.text) same ∙ ground (arith, n) in
    ground (arith, other, new_result scope id job_id locator rs same (ground (arith, n)))

module _ (now : ℕ) (scope : StoredWorkScope) (id : JobId) (command : CommitResult) where
  -- A result that was committed is there.
  abbrev Commits : Database → Result Error CommitResultOutcome → Type 0
  Commits after (ok (committed job)) = HasResult scope id command.locator after.jobs after.results
  Commits after _ = Unit

  abbrev done : Database → Option WebhookSubscriptionId → Bool → Database
  done db webhook is_processing = notify now scope id command.terminal_state webhook (
      set_status scope id command.terminal_state (
        with_result scope id command.locator
          (if is_processing then set_status scope id validating db else db)))

  once :
      (db : Database) (row : JobRow)
      → find_row (has_job scope id) db.jobs ≡ some row
      → is_final command.terminal_state ≡ true
      → any (clashes (result_row scope id command.locator)) db.results ≡ false
      → HasResult scope id command.locator
          (update_row (has_job scope id) (with_status command.terminal_state) db.jobs)
          (db.results ++ result_row scope id command.locator ∷ [])
  once db row e final n =
      let own = find_row-holds (has_job scope id) db.jobs row e in
      let mine : str_eq row.job_id.text id.text ≡ true = ground (arith, own) in
      record {
        row = with_status command.terminal_state row;
        is_there =
            find_row-update_self (has_job scope id) (with_status command.terminal_state) db.jobs row
              e refl;
        final = final;
        result = result_row scope id command.locator;
        result_there =
            new_result scope id row.job_id command.locator db.results
              ((str_eq_iff row.job_id.text id.text).0 mine) n;
        locator_is = refl;
      }

  twice :
      (db : Database) (row : JobRow)
      → find_row (has_job scope id) db.jobs ≡ some row
      → is_final command.terminal_state ≡ true
      → any (clashes (result_row scope id command.locator)) db.results ≡ false
      → HasResult scope id command.locator
          (update_row
            (has_job scope id)
            (with_status command.terminal_state)
            (set_status scope id validating db).jobs)
          (db.results ++ result_row scope id command.locator ∷ [])
  twice db row e final n =
      subst
        (λ jobs.
          HasResult scope id command.locator jobs
            (db.results ++ result_row scope id command.locator ∷ []))
        (sym (
          update_row_twice (has_job scope id) (with_status command.terminal_state)
            (with_status validating) db.jobs (λ x. refl)))
        (once db row e final n)

  done-HasResult :
      (db : Database) (row : JobRow) (webhook : Option WebhookSubscriptionId) (is_processing : Bool)
      → find_row (has_job scope id) db.jobs ≡ some row
      → is_final command.terminal_state ≡ true
      → any
          (clashes (result_row scope id command.locator))
          (if is_processing then set_status scope id validating db else db).results
        ≡ false
      → HasResult scope id command.locator
          (done db webhook is_processing).jobs
          (done db webhook is_processing).results
  unfolding emit
  done-HasResult db row none true e final n = twice db row e final n
  done-HasResult db row (some w) true e final n = twice db row e final n
  done-HasResult db row none false e final n = once db row e final n
  done-HasResult db row (some w) false e final n = once db row e final n

  commit-Commits : (db : Database) → Leaves Commits (commit_result now scope id command db)
  unfolding commit_result finish
  commit-Commits db =
      Leaves-validated Commits _ _ _ (λ x. tt)
        λ v.
          Leaves-branch Commits _ _ _ (λ t. Leaves-end Commits _ _ tt)
            λ t.
              Leaves-found Commits _ _ _ (λ e. Leaves-end Commits _ _ tt)
                λ row e.
                  Leaves-decoded Commits _ _ _ (λ x. tt)
                    λ job d.
                      Leaves-found Commits _ _ _
                        (λ n.
                          Leaves-branch Commits _ _ _ (λ c. Leaves-end Commits _ _ tt)
                            λ c.
                              Leaves-branch Commits _ _ _ (λ t. Leaves-end Commits _ _ tt)
                                λ fresh.
                                  Leaves-found Commits _ _ _ (λ e. Leaves-end Commits _ _ tt)
                                    λ last l.
                                      Leaves-commit Commits _ _ _ _ (λ x. tt)
                                        (λ x y.
                                          done-HasResult db row row.webhook_subscription_id
                                            (state_eq job.state processing) e (ground (arith, t))
                                            fresh))
                        (λ existing n.
                          Leaves-commit Commits _ _ _ _ (λ x. tt)
                            (λ locator y.
                              if-holds (λ o. Commits db (ok o))
                                (locator_eq locator command.locator
                                  && state_eq job.state command.terminal_state)
                                _ _ tt tt))

module _ (written_len stored_len : PageWorkflow → ℕ) where
  found_result :
      (scope : StoredWorkScope) (id : JobId) (locator : StoredResultLocator) (db : Database)
      → HasResult scope id locator db.jobs db.results
      → ((r : ResultRow) → r.locator ≡ locator → stored_result_locator r ≡ ok locator)
      → find_result scope id db ≡ ok (ResultLookup.ready locator)
  unfolding find_result
  found_result scope id locator db h valid =
      let decoded_ = valid h.result h.locator_is in
      ground (arith, h.is_there, h.result_there, h.final, decoded_)

  -- A result that was committed is found: after any further calls of any processes, `find_result`
  -- gives the locator that was committed, where its identifiers are valid.
  pub commit_result-find_result :
      (now : ℕ) (scope : StoredWorkScope) (id : JobId) (command : CommitResult) (db : Database)
      (job : StoredJob) (calls : List JobCall)
      → (commit_result now scope id command db).1 ≡ ok (committed job)
      → stored_result_locator (result_row scope id command.locator) ≡ ok command.locator
      → find_result scope id
          (run written_len stored_len (commit_result now scope id command db).0 calls)
        ≡ ok (ResultLookup.ready command.locator)
  commit_result-find_result now scope id command db job calls done valid =
      let after = (commit_result now scope id command db).0 in
      let there : HasResult scope id command.locator after.jobs after.results =
        subst (Commits now scope id command after) done
          (commit-Commits now scope id command db).holds in
      found_result scope id command.locator (run written_len stored_len after calls)
        (run-HasResult written_len stored_len scope id command.locator after calls there)
        (λ r same. decoded_again scope id r command.locator same valid)
