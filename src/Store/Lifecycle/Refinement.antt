-- ===== src/Store/Lifecycle/Refinement.antt =====
-- The store's updates of a job's status, in crates/ocr-store/src/lib.rs, against the transitions
-- that `JobLifecycle` of crates/ocr-domain/src/lib.rs allows.
use document_intelligence.Base.{
  ℕ, ◌≡◌, ◌≢◌, ◌⊎◌, inl, inr, refl, sym, ap, subst, ◌∙◌, List, [], ◌∷◌, ◌++◌, some, arith, All,
  All-append,
}
use document_intelligence.Domain.Errors.{
  JobState, inspecting, processing, validating, cancelling, cancelled, partial,
}
use document_intelligence.Domain.JobLifecycle.{
  JobLifecycle, Request, move, transition_to, apply, is_allowed_transition,
}
use document_intelligence.Domain.JobLifecycle as Lifecycle
use document_intelligence.Domain.Ids.{JobId}
use document_intelligence.PageWorkflow.{PageWorkflow}
use document_intelligence.Store.Values.{StoredWorkScope}
use document_intelligence.Store.Tables.{
  Database, JobRow, find_row, update_row, find_row-append, find_row-update_row, All-find_row,
  All-update_found,
}
use document_intelligence.Store.Jobs.{has_job, accepted_job, with_status}
use document_intelligence.Store.Lifecycle.{
  JobCall, Change, to_processing, to_cancelled, from_cancelling, to_final, step, run,
}
use document_intelligence.Store.Lifecycle.Steps.{step_cases}

-- The lifecycle that a status stands for.
abbrev lifecycle : JobState → JobLifecycle
lifecycle s = record { state = s }

-- Some requests to the lifecycle lead from one state to the other.
abbrev pub Refines : JobState → JobState → Type 0
Refines s t = (rs : List Request) × (Lifecycle.run (lifecycle s) rs ≡ lifecycle t)

-- No transaction leaves a job in the state that `commit_result` only passes through.
abbrev pub IsAtRest : JobRow → Type 0
IsAtRest row = row.status ≢ validating

-- The requests that lead to a state; the first of them is refused where it is behind the job.
abbrev path : JobState → List Request
path processing = move inspecting ∷ move processing ∷ []
path cancelled = move cancelling ∷ move cancelled ∷ []
path partial = move partial ∷ []
path s = move validating ∷ move s ∷ []

Change-path :
    (s t : JobState)
    → s ≢ validating
    → Change s t
    → Lifecycle.run (lifecycle s) (path t) ≡ lifecycle t
unfolding Lifecycle.run apply transition_to is_allowed_transition
Change-path _ _ n (to_processing s c) = ground (arith, c)
Change-path _ _ n (to_cancelled s c) = ground (arith, c)
Change-path _ _ n (from_cancelling s c) = ground (arith, c)
Change-path _ _ n (to_final s t c d) = ground (arith, n, c, d)

Change-IsAtRest : (s t : JobState) → Change s t → t ≢ validating
Change-IsAtRest _ _ (to_processing s c) = ground arith
Change-IsAtRest _ _ (to_cancelled s c) = ground arith
Change-IsAtRest _ _ (from_cancelling s c) = ground arith
Change-IsAtRest _ _ (to_final s t c d) = ground (arith, d)

module _ (written_len stored_len : PageWorkflow → ℕ) where
  step-IsAtRest :
      (db : Database) (call : JobCall)
      → All IsAtRest db.jobs
      → All IsAtRest (step written_len stored_len db call).jobs
  unfolding accepted_job
  step-IsAtRest db call rest =
      step_cases (λ jobs results. All IsAtRest jobs) db written_len stored_len call rest
        (λ now request new.
          All-append IsAtRest db.jobs (accepted_job now request ∷ []) rest (ground arith, tt))
        (λ scope id row status e change nonfinal.
          All-update_found (has_job scope id) IsAtRest (with_status status) db.jobs row e rest
            (λ h. Change-IsAtRest row.status status change))
        (λ scope id row command e change final new.
          All-update_found (has_job scope id) IsAtRest (with_status command.terminal_state) db.jobs
            row e rest (λ h. Change-IsAtRest row.status command.terminal_state change))

-- What has become of a job's row.
abbrev pub Becomes : StoredWorkScope → JobId → JobRow → List JobRow → Type 0
Becomes scope id row rows =
    (status : JobState) × (find_row (has_job scope id) rows ≡ some (with_status status row))
    × Refines row.status status

module _ (written_len stored_len : PageWorkflow → ℕ) (scope : StoredWorkScope) (id : JobId) where
  step-Becomes :
      (db : Database) (call : JobCall) (row : JobRow)
      → All IsAtRest db.jobs
      → find_row (has_job scope id) db.jobs ≡ some row
      → Becomes scope id row (step written_len stored_len db call).jobs
  unfolding Lifecycle.run
  step-Becomes db call row rest e =
      step_cases (λ jobs results. Becomes scope id row jobs) db written_len stored_len call
        (row.status, e, ([], refl))
        (λ now request new.
          (row.status, find_row-append (has_job scope id) db.jobs _ row e, ([], refl)))
        (λ s i other status found change nonfinal. moved s i other status found change)
        (λ s i other command found change final new.
          moved s i other command.terminal_state found change)
    where
      updated :
          (s : StoredWorkScope) (i : JobId) (other : JobRow) (status : JobState)
          → Change other.status status
          → (find_row (has_job scope id) (update_row (has_job s i) (with_status status) db.jobs)
              ≡ some row)
            ⊎ (other ≡ row)
              × (find_row (has_job scope id) (update_row (has_job s i) (with_status status) db.jobs)
                  ≡ some (with_status status other))
          → Becomes scope id row (update_row (has_job s i) (with_status status) db.jobs)
      updated s i other status change (inl kept) = (row.status, kept, ([], refl))
      updated s i other status change (inr (same, written)) = (
        status,
        written ∙ ap (λ r. some (with_status status r)) same,
        (
          path status,
          Change-path row.status status
              (All-find_row (has_job scope id) IsAtRest db.jobs row rest e)
              (subst (λ r. Change r.status status) same change),
        ),
      )

      moved :
          (s : StoredWorkScope) (i : JobId) (other : JobRow) (status : JobState)
          → find_row (has_job s i) db.jobs ≡ some other
          → Change other.status status
          → Becomes scope id row (update_row (has_job s i) (with_status status) db.jobs)
      moved s i other status found change = updated s i other status change (
          find_row-update_row (has_job scope id) (has_job s i) (with_status status) db.jobs row
            other e found refl)

  run_append :
      (job : JobLifecycle) (rs more : List Request)
      → Lifecycle.run (Lifecycle.run job rs) more ≡ Lifecycle.run job (rs ++ more)
  unfolding Lifecycle.run
  run_append job [] more = refl
  run_append job (r ∷ rs) more = run_append (apply job r) rs more

  Refines-trans : (s m t : JobState) → Refines s m → Refines m t → Refines s t
  Refines-trans s m t (rs, e) (more, d) = (
    rs ++ more,
    sym (run_append (lifecycle s) rs more) ∙ ap (λ job. Lifecycle.run job more) e ∙ d,
  )

  -- From tables in which no job is validating, over any calls of any processes, the status of a
  -- job moves as requests to the lifecycle of the domain move it, and no other column of its row
  -- changes.
  pub run-Refines :
      (db : Database) (calls : List JobCall) (row : JobRow)
      → All IsAtRest db.jobs
      → find_row (has_job scope id) db.jobs ≡ some row
      → Becomes scope id row (run written_len stored_len db calls).jobs
  unfolding run Lifecycle.run
  run-Refines db [] row rest e = (row.status, e, ([], refl))
  run-Refines db (call ∷ calls) row rest e =
      let (middle, found, first) = step-Becomes db call row rest e in
      let (last, there, then_) =
        run-Refines (step written_len stored_len db call) calls (with_status middle row)
          (step-IsAtRest written_len stored_len db call rest) found in
      (last, there, Refines-trans row.status middle last first then_)
