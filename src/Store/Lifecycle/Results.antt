-- ===== src/Store/Lifecycle/Results.antt =====
-- Jobs and results in crates/ocr-store/src/lib.rs: a job has a result exactly when its status is
-- final, over every sequence of calls.
use document_intelligence.Base.{
  ℕ, ◌≡◌, inl, inr, refl, sym, ap, subst, ◌∙◌, Bool, true, false, ◌||◌, any, List, [], ◌∷◌, ◌++◌,
  some, arith, All, All-append, All-imp, Bool-cases,
}
use document_intelligence.Base.Text.{Str, str_eq, str_eq_iff, str_eq_sym}
use document_intelligence.Domain.Errors.{JobState}
use document_intelligence.Domain.Ids.{JobId}
use document_intelligence.PageWorkflow.{PageWorkflow}
use document_intelligence.Store.Values.{StoredWorkScope, StoredResultLocator}
use document_intelligence.Store.Tables.{
  Database, JobRow, ResultRow, find_row, update_row, All-update_found,
}
use document_intelligence.Store.Jobs.{has_job, accepted_job, with_status, is_final, has_result}
use document_intelligence.Store.Jobs.Results.{result_row}
use document_intelligence.Store.Lifecycle.{
  JobCall, Change, to_processing, to_cancelled, from_cancelling, to_final, step, run,
}
use document_intelligence.Store.Lifecycle.Steps.{step_cases}

-- Some job has the identifier.
abbrev pub has_id : Str → JobRow → Bool
has_id text row = str_eq row.job_id.text text

-- No two jobs have the same identifier.
abbrev pub HasDistinctIds : List JobRow → Type 0
HasDistinctIds [] = Unit
HasDistinctIds (r ∷ rs) = (any (has_id r.job_id.text) rs ≡ false) × HasDistinctIds rs

abbrev pub IsSettled : List ResultRow → JobRow → Type 0
IsSettled results job = any (has_result job.job_id) results ≡ is_final job.status

abbrev pub HasJob : List JobRow → ResultRow → Type 0
HasJob jobs result = any (has_id result.job_id.text) jobs ≡ true

pub record Consistent (jobs : List JobRow) (results : List ResultRow) : Type 0 where
  pub distinct : HasDistinctIds jobs
  pub settled : All (IsSettled results) jobs
  pub owned : All (HasJob jobs) results

module _ (scope : StoredWorkScope) (id : JobId) (status : JobState) where
  abbrev updated : List JobRow → List JobRow
  updated = update_row (has_job scope id) (with_status status)

  any-updated :
      (text : Str) (rs : List JobRow) → any (has_id text) (updated rs) ≡ any (has_id text) rs
  any-updated text [] = refl
  any-updated text (r ∷ rs) = ground (arith, any-updated text rs)

  HasDistinctIds-updated : (rs : List JobRow) → HasDistinctIds rs → HasDistinctIds (updated rs)
  HasDistinctIds-updated [] h = tt
  HasDistinctIds-updated (r ∷ rs) h =
      ground (arith, any-updated r.job_id.text rs, HasDistinctIds-updated rs h.1)

any-append_one :
    {A : Type 0} (p : A → Bool) (xs : List A) (x : A) → any p (xs ++ x ∷ []) ≡ (any p xs || p x)
any-append_one p [] x = ground arith
any-append_one p (y ∷ xs) x = ground (arith, any-append_one p xs x)

HasDistinctIds-append :
    (rs : List JobRow) (new : JobRow)
    → HasDistinctIds rs
    → any (has_id new.job_id.text) rs ≡ false
    → HasDistinctIds (rs ++ new ∷ [])
HasDistinctIds-append [] new h f = (refl, tt)
HasDistinctIds-append (r ∷ rs) new h f =
    let rest = HasDistinctIds-append rs new h.1 in
    ground (
      arith,
      h,
      f,
      any-append_one (has_id r.job_id.text) rs new,
      str_eq_sym r.job_id.text new.job_id.text,
      rest,
    )

-- A job that is found is among those with its identifier.
found-has_id :
    (scope : StoredWorkScope) (id : JobId) (rs : List JobRow) (row : JobRow)
    → find_row (has_job scope id) rs ≡ some row
    → any (has_id id.text) rs ≡ true
found-has_id scope id [] row e = cc
found-has_id scope id (r ∷ rs) row e = ground (arith, found-has_id scope id rs row)

pub Change-nonfinal : (s t : JobState) → Change s t → is_final s ≡ false
Change-nonfinal _ _ (to_processing s c) = ground (arith, c)
Change-nonfinal _ _ (to_cancelled s c) = ground (arith, c)
Change-nonfinal _ _ (from_cancelling s c) = ground (arith, c)
Change-nonfinal _ _ (to_final s t c d) = ground (arith, c)

module _ (jobs : List JobRow) where
  -- An identifier without a job has no result.
  unowned :
      (id : JobId) (results : List ResultRow)
      → any (has_id id.text) jobs ≡ false
      → All (HasJob jobs) results
      → any (has_result id) results ≡ false
  unowned id [] f h = refl
  unowned id (r ∷ rs) f h = elim (Bool-cases (str_eq r.job_id.text id.text)) [
    | inl e ↦
        (let same = (str_eq_iff r.job_id.text id.text).0 e in
          absurd (cc (sym f ∙ subst (λ text. any (has_id text) jobs ≡ true) same h.0)))
    | inr e ↦ ground (arith, e, unowned id rs f h.1)
  ]

module _ (results : List ResultRow) (scope : StoredWorkScope) (id : JobId)
    (locator : StoredResultLocator) where
  abbrev added : List ResultRow
  added = results ++ result_row scope id locator ∷ []

  -- The new result is of no job with another identifier.
  IsSettled-other :
      (job : JobRow)
      → str_eq job.job_id.text id.text ≡ false
      → IsSettled results job
      → IsSettled added job
  IsSettled-other job n h = ground (
    arith,
    n,
    h,
    str_eq_sym job.job_id.text id.text,
    any-append_one (has_result job.job_id) results (result_row scope id locator),
  )

  IsSettled-others :
      (rs : List JobRow)
      → any (has_id id.text) rs ≡ false
      → All (IsSettled results) rs
      → All (IsSettled added) rs
  IsSettled-others [] n h = tt
  IsSettled-others (r ∷ rs) n h =
      (IsSettled-other r (ground (arith, n)) h.0, IsSettled-others rs (ground (arith, n)) h.1)

  apart :
      (text : Str) (rs : List JobRow)
      → any (has_id text) rs ≡ false
      → any (has_id id.text) rs ≡ true
      → str_eq text id.text ≡ false
  apart text rs n p = elim (Bool-cases (str_eq text id.text)) [
    | inl e ↦ absurd (cc (sym n ∙ ap (λ t. any (has_id t) rs) ((str_eq_iff text id.text).0 e) ∙ p))
    | inr e ↦ e
  ]

  -- The job of the new result is final now, and the others are as before.
  IsSettled-committed :
      (status : JobState) (rs : List JobRow) (row : JobRow)
      → is_final status ≡ true
      → HasDistinctIds rs
      → find_row (has_job scope id) rs ≡ some row
      → All (IsSettled results) rs
      → All (IsSettled added) (updated scope id status rs)
  IsSettled-committed status [] row final d e h = cc
  IsSettled-committed status (r ∷ rs) row final d e h = elim (Bool-cases (has_job scope id r)) [
    | inl own ↦
        (let mine : str_eq r.job_id.text id.text ≡ true = ground (arith, own) in
          let same = (str_eq_iff r.job_id.text id.text).0 mine in
          let absent = subst (λ text. any (has_id text) rs ≡ false) same d.0 in
          let now_settled : IsSettled added (with_status status r) = ground (
            arith,
            final,
            mine,
            str_eq_sym r.job_id.text id.text,
            any-append_one (has_result r.job_id) results (result_row scope id locator),
          ) in
          let done : All (IsSettled added) (with_status status r ∷ rs) =
            (now_settled, IsSettled-others rs absent h.1) in
          rw own done)
    | inr other ↦
        (let there : find_row (has_job scope id) rs ≡ some row = ground (arith, other, e) in
          let present = found-has_id scope id rs row there in
          let rest = IsSettled-committed status rs row final d.1 there h.1 in
          let done : All (IsSettled added) (r ∷ updated scope id status rs) =
            (IsSettled-other r (apart r.job_id.text rs d.0 present) h.0, rest) in
          rw other done)
  ]

module _ (written_len stored_len : PageWorkflow → ℕ) where
  step-Consistent :
      (db : Database) (call : JobCall)
      → Consistent db.jobs db.results
      → let after = step written_len stored_len db call in Consistent after.jobs after.results
  unfolding accepted_job
  step-Consistent db call c =
      step_cases Consistent db written_len stored_len call c
        (λ now request new. record {
          distinct = HasDistinctIds-append db.jobs (accepted_job now request) c.distinct new;
          settled =
              All-append (IsSettled db.results) db.jobs (accepted_job now request ∷ []) c.settled
                (unowned db.jobs request.job_id db.results new c.owned, tt);
          owned =
              All-imp (HasJob db.jobs) (HasJob (db.jobs ++ accepted_job now request ∷ []))
                (λ result h.
                  any-append_one (has_id result.job_id.text) db.jobs (accepted_job now request)
                  ∙ ap (λ b. b || str_eq request.job_id.text result.job_id.text) h)
                db.results c.owned;
        })
        (λ scope id row status e change nonfinal. record {
          distinct = HasDistinctIds-updated scope id status db.jobs c.distinct;
          settled =
              All-update_found (has_job scope id) (IsSettled db.results) (with_status status)
                db.jobs row e c.settled
                (λ h. h ∙ Change-nonfinal row.status status change ∙ sym nonfinal);
          owned =
              All-imp (HasJob db.jobs) (HasJob (updated scope id status db.jobs))
                (λ result h. any-updated scope id status result.job_id.text db.jobs ∙ h) db.results
                c.owned;
        })
        (λ scope id row command e change final new. record {
          distinct = HasDistinctIds-updated scope id command.terminal_state db.jobs c.distinct;
          settled =
              IsSettled-committed db.results scope id command.locator command.terminal_state db.jobs
                row final c.distinct e c.settled;
          owned =
              All-append (HasJob (updated scope id command.terminal_state db.jobs)) db.results
                (result_row scope id command.locator ∷ [])
                (All-imp (HasJob db.jobs) (HasJob (updated scope id command.terminal_state db.jobs))
                  (λ result h.
                    any-updated scope id command.terminal_state result.job_id.text db.jobs ∙ h)
                  db.results c.owned)
                (
                  any-updated scope id command.terminal_state id.text db.jobs
                      ∙ found-has_id scope id db.jobs row e,
                  tt,
                );
        })

  -- From tables that are consistent, no sequence of calls leaves a job with a final status and no
  -- result, a result of a job whose status is not final or of no job, or two jobs with the same
  -- identifier.
  pub run-Consistent :
      (db : Database) (calls : List JobCall)
      → Consistent db.jobs db.results
      → let after = run written_len stored_len db calls in Consistent after.jobs after.results
  unfolding run
  run-Consistent db [] c = c
  run-Consistent db (call ∷ calls) c =
      run-Consistent (step written_len stored_len db call) calls (step-Consistent db call c)
