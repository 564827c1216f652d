-- ===== src/PageWorkflow.antt =====
-- crates/ocr-domain/src/page_workflow.rs: the pages of one job, their attempts, and the tasks that
-- workers claim and report on. A method that takes `&mut self` returns the new value beside its
-- result. The conversions between u32 and usize never fail, since usize has 64 bits.
pub mod Active
pub mod Invariant
pub mod Runs
pub mod Claims
pub mod Granted
pub mod Keys
pub mod Records
pub mod Progress
pub mod Tests
use document_intelligence.Base.{
  ℕ, zero, suc, ◌+◌, ◌-◌, Bool, true, false, ◌&&◌, ◌||◌, not, List, [], ◌∷◌, ◌++◌, Option, none,
  some, if◌then◌else◌, ltb, leb, ◌==◌, within, all, any, length, get_elem?, set, replicate, Result,
  ok, err, u8_max, u32_max, saturating_add,
}
use document_intelligence.Base.Text.{Str, codes, str_eq, is_some_and}
use document_intelligence.Base.Text.Decimal.{decimal}
use document_intelligence.Domain.Errors.{Error, invalid_page_workflow, stale_page_task}
use document_intelligence.Domain.Ids.{JobId}

abbrev pub maximum_page_count : ℕ
maximum_page_count = 1000

abbrev pub maximum_page_attempts : ℕ
maximum_page_attempts = 10

pub data PageWorkflowStatus : Type 0 where
  running completed partial cancelled : PageWorkflowStatus

pub record PageTask : Type 0 where
  pub page : ℕ
  pub attempt : ℕ
  pub activity_key : Str

pub data PageProgress : Type 0 where
  pending : ℕ → PageProgress
  running : ℕ → PageProgress
  succeeded : ℕ → PageProgress
  exhausted : ℕ → PageProgress
  permanently_failed : ℕ → PageProgress

pub record PageWorkflow : Type 0 where
  pub job_id : JobId
  pub max_attempts : ℕ
  pub pages : List PageProgress
  pub cancelled : Bool

-- The test that `TryFrom<RawPageWorkflow>` makes of each page, true for a page that it refuses.
abbrev pub is_malformed : ℕ → PageProgress → Bool
is_malformed m (pending failures) = leb m failures
is_malformed m (running attempt) = attempt == 0 || ltb m attempt
is_malformed m (succeeded attempt) = attempt == 0 || ltb m attempt
is_malformed m (exhausted attempts) = not (attempts == m)
is_malformed m (permanently_failed attempt) = attempt == 0 || ltb m attempt

-- `RawPageWorkflow` has the fields of `PageWorkflow`.
unfoldable pub try_from : PageWorkflow → Result Error PageWorkflow
try_from raw =
    if not (within 1 maximum_page_attempts raw.max_attempts)
      || (length raw.pages == 0
          || (ltb maximum_page_count (length raw.pages)
              || any (is_malformed raw.max_attempts) raw.pages))
    then err invalid_page_workflow
    else ok (record {
      job_id = raw.job_id;
      max_attempts = raw.max_attempts;
      pages = raw.pages;
      cancelled = raw.cancelled;
    })

unfoldable pub new : JobId → ℕ → ℕ → Result Error PageWorkflow
new job_id page_count max_attempts =
    if not (within 1 maximum_page_count page_count)
      || not (within 1 maximum_page_attempts max_attempts)
    then err invalid_page_workflow
    else ok (record {
      job_id = job_id;
      max_attempts = max_attempts;
      pages = replicate page_count (pending 0);
      cancelled = false;
    })

abbrev pub is_succeeded : PageProgress → Bool
is_succeeded (succeeded attempt) = true
is_succeeded _ = false

-- A page that no worker is to touch again.
abbrev pub is_settled : PageProgress → Bool
is_settled (succeeded attempt) = true
is_settled (exhausted attempts) = true
is_settled (permanently_failed attempt) = true
is_settled _ = false

unfoldable pub status : PageWorkflow → PageWorkflowStatus
status w =
    if w.cancelled
    then cancelled
    else if all is_succeeded w.pages
    then completed
    else if all is_settled w.pages
    then partial
    else running

-- `filter(..).count()`
unfoldable pub successful : List PageProgress → ℕ
successful [] = 0
successful (p ∷ ps) = (if is_succeeded p then 1 else 0) + successful ps

unfoldable pub successful_page_count : PageWorkflow → ℕ
unfolding successful
successful_page_count w = successful w.pages

unfoldable pub activity_key : JobId → ℕ → ℕ → Str
activity_key job_id page attempt =
    codes "ocr-job-"
    ++ (job_id.text ++ (codes "-page-" ++ (decimal page ++ (codes "-attempt-" ++ decimal attempt))))

-- The attempt under which a page is handed out; `none` is the `continue` of a settled page.
abbrev pub claimed_attempt : PageProgress → Option ℕ
claimed_attempt (running attempt) = some attempt
claimed_attempt (pending failures) = some (saturating_add u8_max failures 1)
claimed_attempt _ = none

abbrev pub task : JobId → ℕ → ℕ → PageTask
task job_id page attempt = record {
  page = page;
  attempt = attempt;
  activity_key = activity_key job_id page attempt;
}

abbrev pub Claim : Type 0
Claim = List PageProgress × Result Error (List PageTask)

abbrev pub keep_page : PageProgress → Claim → Claim
keep_page p (ps, r) = (p ∷ ps, r)

abbrev pub claim_page : PageProgress → PageTask → Claim → Claim
claim_page p t (ps, ok ts) = (p ∷ ps, ok (t ∷ ts))
claim_page p t (ps, err e) = (p ∷ ps, err e)

-- The loop of `claim_ready` from the page at `index` on, with `left` more tasks to be handed out.
-- A page number above `u32::MAX` ends it with an error after the page has been marked.
unfoldable pub claim_from : JobId → ℕ → ℕ → List PageProgress → Claim
claim_from job_id left index [] = ([], ok [])
claim_from job_id zero index (p ∷ ps) = (p ∷ ps, ok [])
claim_from job_id (suc left) index (p ∷ ps) = elim (claimed_attempt p) [
  | none ↦ keep_page p (claim_from job_id (suc left) (index + 1) ps)
  | some attempt ↦
      (let rest = claim_from job_id left (index + 1) ps in
        if ltb u32_max (index + 1)
        then (running attempt ∷ ps, err invalid_page_workflow)
        else claim_page (running attempt) (task job_id (index + 1) attempt) rest)
]

abbrev with_pages : PageWorkflow → Claim → PageWorkflow × Result Error (List PageTask)
with_pages w (ps, r) = (record w { pages = ps }, r)

unfoldable pub claim_ready : PageWorkflow → ℕ → PageWorkflow × Result Error (List PageTask)
unfolding claim_from
claim_ready w limit =
    if not (within 1 64 limit)
    then (w, err invalid_page_workflow)
    else if w.cancelled
    then (w, ok [])
    else with_pages w (claim_from w.job_id limit 0 w.pages)

abbrev pub runs_attempt : ℕ → PageProgress → Bool
runs_attempt attempt (running a) = a == attempt
runs_attempt attempt _ = false

-- `active_progress`: the index of the page that a task may report on.
unfoldable pub active_progress : PageWorkflow → PageTask → Result Error ℕ
active_progress w t =
    if w.cancelled
      || (not (str_eq t.activity_key (activity_key w.job_id t.page t.attempt)) || t.page == 0)
    then err stale_page_task
    else elim (get_elem? w.pages (t.page - 1)) [
      | none ↦ err stale_page_task
      | some p ↦ if runs_attempt t.attempt p then ok (t.page - 1) else err stale_page_task
    ]

-- `*progress = p` through the reference that `active_progress` returned.
abbrev pub write :
    PageWorkflow → PageProgress → Result Error ℕ → PageWorkflow × Result Error (Unit {0})
write w p (ok index) = (record w { pages = set w.pages index p }, ok tt)
write w p (err e) = (w, err e)

unfoldable pub record_success : PageWorkflow → PageTask → PageWorkflow × Result Error (Unit {0})
record_success w t = write w (succeeded t.attempt) (active_progress w t)

abbrev pub after_failure : ℕ → ℕ → PageProgress
after_failure max_attempts attempt =
    if attempt == max_attempts then exhausted attempt else pending attempt

unfoldable pub record_retryable_failure :
    PageWorkflow → PageTask → PageWorkflow × Result Error (Unit {0})
record_retryable_failure w t =
    write w (after_failure w.max_attempts t.attempt) (active_progress w t)

unfoldable pub record_permanent_failure :
    PageWorkflow → PageTask → PageWorkflow × Result Error (Unit {0})
record_permanent_failure w t = write w (permanently_failed t.attempt) (active_progress w t)

unfoldable pub request_cancellation : PageWorkflow → PageWorkflow
request_cancellation w = record w { cancelled = true }

abbrev pub succeeded_with : ℕ → PageProgress → Bool
succeeded_with attempt (succeeded a) = a == attempt
succeeded_with attempt _ = false

unfoldable pub is_successful_task : PageWorkflow → PageTask → Bool
is_successful_task w t =
    if t.page == 0 || not (str_eq t.activity_key (activity_key w.job_id t.page t.attempt))
    then false
    else is_some_and (get_elem? w.pages (t.page - 1)) (succeeded_with t.attempt)
