-- ===== src/PageWorkflow/Records.antt =====
-- What a report on a task does to the workflow.
use document_intelligence.Base.{
  ℕ, ◌-◌, ◌≡◌, ◌≢◌, refl, sym, ◌∙◌, ◌⊎◌, inl, inr, true, some, arith, length, get_elem?,
  get_elem?-lt, get_elem?-set_self, get_elem?-set_ne, set, length-set, ==_refl, ◌↔◌, Result, ok,
  err,
}
use mathlib.Core.Option.{some-injective}
use document_intelligence.Base.Text.{str_eq_iff}
use document_intelligence.Domain.Errors.{Error, stale_page_task}
use document_intelligence.PageWorkflow.{
  PageWorkflow, PageProgress, PageTask, running, succeeded, permanently_failed, activity_key,
  after_failure, active_progress, write, record_success, record_retryable_failure,
  record_permanent_failure, request_cancellation, is_successful_task, succeeded_with,
}
use document_intelligence.PageWorkflow.Active.{IsActive, active_progress_iff, active_outcomes}

-- The three reports.
pub data Report : Type 0 where
  success retryable permanent : Report

unfoldable pub record_report :
    Report → PageWorkflow → PageTask → PageWorkflow × Result Error (Unit {0})
record_report success w t = record_success w t
record_report retryable w t = record_retryable_failure w t
record_report permanent w t = record_permanent_failure w t

-- The progress that a report puts in the place of a running page's.
abbrev pub reported : Report → ℕ → ℕ → PageProgress
reported success m a = succeeded a
reported retryable m a = after_failure m a
reported permanent m a = permanently_failed a

pub record_report-write :
    (r : Report) (w : PageWorkflow) (t : PageTask)
    → record_report r w t ≡ write w (reported r w.max_attempts t.attempt) (active_progress w t)
unfolding record_report record_success record_retryable_failure record_permanent_failure
record_report-write success w t = refl
record_report-write retryable w t = refl
record_report-write permanent w t = refl

-- The effect of an accepted report: the task's page, which ran its attempt, has the reported
-- progress; no other page and no other field has changed.
pub record Recorded (r : Report) (w w' : PageWorkflow) (t : PageTask) : Type 0 where
  pub ran : IsActive w t (t.page - 1)
  pub page : get_elem? w'.pages (t.page - 1) ≡ some (reported r w.max_attempts t.attempt)
  pub others : (k : ℕ) → k ≢ t.page - 1 → get_elem? w'.pages k ≡ get_elem? w.pages k
  pub same_length : length w'.pages ≡ length w.pages
  pub same_job : w'.job_id ≡ w.job_id
  pub same_attempts : w'.max_attempts ≡ w.max_attempts
  pub same_cancelled : w'.cancelled ≡ w.cancelled

write-Recorded :
    (r : Report) (w : PageWorkflow) (t : PageTask)
    → active_progress w t ≡ ok (t.page - 1)
    → Recorded r w
        (record w { pages = set w.pages (t.page - 1) (reported r w.max_attempts t.attempt) })
        t
write-Recorded r w t h =
    let ran = (active_progress_iff w t (t.page - 1)).0 h in
    record {
      ran = ran;
      page =
          get_elem?-set_self w.pages (t.page - 1) (reported r w.max_attempts t.attempt)
            (get_elem?-lt w.pages (t.page - 1) ran.found);
      others = λ k ne. get_elem?-set_ne w.pages _ (λ e. ne (sym e));
      same_length = length-set w.pages (t.page - 1) _;
      same_job = refl;
      same_attempts = refl;
      same_cancelled = refl;
    }

-- A report is accepted exactly for the task that its page is running. It then changes that page, as
-- the kind of the report says, and nothing else; a refused one is stale and changes nothing.
pub record_report_outcomes :
    (r : Report) (w : PageWorkflow) (t : PageTask)
    → ((record_report r w t).1 ≡ ok tt) × Recorded r w (record_report r w t).0 t
      ⊎ ((record_report r w t).1 ≡ err stale_page_task)
        × ((record_report r w t).0 ≡ w)
        × ¬ IsActive w t (t.page - 1)
record_report_outcomes r w t = rw (record_report-write r w t) (elim (active_outcomes w t) [
  | inl e ↦ rw e (inl (refl, write-Recorded r w t e))
  | inr e ↦ rw e (inr (refl, refl, λ a. cc (e, (active_progress_iff w t (t.page - 1)).1 a)))
])

not_running : (r : Report) (m a : ℕ) → reported r m a ≢ running a
not_running success m a h = cc
not_running retryable m a h = ground arith
not_running permanent m a h = cc

-- After an accepted report the same task is stale, whatever is reported: nothing is recorded twice.
pub report_once :
    (r again : Report) (w : PageWorkflow) (t : PageTask)
    → (record_report r w t).1 ≡ ok tt
    → (record_report again (record_report r w t).0 t).1 ≡ err stale_page_task
report_once r again w t h =
    let w' = (record_report r w t).0 in
    elim (record_report_outcomes r w t) [
      | inr (refused, _, _) ↦ absurd (cc)
      | inl (_, done) ↦ elim (record_report_outcomes again w' t) [
        | inl (_, more) ↦ absurd (
            not_running r w.max_attempts t.attempt
              (some-injective _ _ (sym done.page ∙ more.ran.found)))
        | inr (stale, _, _) ↦ stale
      ]
    ]

-- Once cancelled, a workflow takes no report and stays as it is.
pub report_cancelled :
    (r : Report) (w : PageWorkflow) (t : PageTask)
    → record_report r (request_cancellation w) t ≡ (request_cancellation w, err stale_page_task)
unfolding request_cancellation
report_cancelled r w t =
    rw (record_report-write r (record w { cancelled = true }) t) (unfold active_progress in refl)

successful_lookup :
    (w : PageWorkflow) (t : PageTask) (p : PageProgress)
    → t.page ≢ 0
    → t.activity_key ≡ activity_key w.job_id t.page t.attempt
    → get_elem? w.pages (t.page - 1) ≡ some p
    → is_successful_task w t ≡ succeeded_with t.attempt p
unfolding is_successful_task
successful_lookup w t p n k e =
    ground (arith, (str_eq_iff t.activity_key (activity_key w.job_id t.page t.attempt)).1 k)

succeeded_only : (r : Report) (m a : ℕ) → succeeded_with a (reported r m a) ≡ true → r ≡ success
succeeded_only success m a h = refl
succeeded_only retryable m a h = ground arith
succeeded_only permanent m a h = cc

-- After an accepted report the task counts as successful exactly if success was reported.
pub is_successful_task-report :
    (r : Report) (w : PageWorkflow) (t : PageTask)
    → (record_report r w t).1 ≡ ok tt
    → (is_successful_task (record_report r w t).0 t ≡ true) ↔ (r ≡ success)
is_successful_task-report r w t h = elim (record_report_outcomes r w t) [
  | inr (refused, _, _) ↦ absurd (cc)
  | inl (_, done) ↦
      (let found =
          successful_lookup (record_report r w t).0 t (reported r w.max_attempts t.attempt)
            (omega (arith, done.ran.numbered)) (rw done.same_job done.ran.keyed) done.page in
        (
          λ e. succeeded_only r w.max_attempts t.attempt (sym found ∙ e),
          λ e. found ∙ rw e (==_refl t.attempt),
        ))
]
