-- ===== src/PageWorkflow/Active.antt =====
-- `active_progress`: which tasks a report is taken from, and which page it then changes.
use document_intelligence.Base.{
  ℕ, suc, ◌-◌, ◌≡◌, ap, ◌∙◌, ◌↔◌, ◌⊎◌, inl, inr, true, false, some, arith, get_elem?, ok, err,
  Option-cases,
}
use document_intelligence.Base.Text.{str_eq, str_eq_iff}
use document_intelligence.Domain.Errors.{stale_page_task}
use document_intelligence.PageWorkflow.{
  PageWorkflow, PageProgress, PageTask, activity_key, active_progress, runs_attempt, pending,
  running, succeeded, exhausted, permanently_failed,
}

-- The task is the one that the page at `i` is running.
pub record IsActive (w : PageWorkflow) (t : PageTask) (i : ℕ) : Type 0 where
  pub live : w.cancelled ≡ false
  pub keyed : t.activity_key ≡ activity_key w.job_id t.page t.attempt
  pub numbered : t.page ≡ suc i
  pub found : get_elem? w.pages i ≡ some (running t.attempt)

running-of : (a : ℕ) (p : PageProgress) → runs_attempt a p ≡ true → p ≡ running a
running-of a (running b) h = ground arith
running-of a (pending b) h = cc
running-of a (succeeded b) h = cc
running-of a (exhausted b) h = cc
running-of a (permanently_failed b) h = cc

runs_self : (a : ℕ) → runs_attempt a (running a) ≡ true
runs_self a = ground arith

-- What the guard of `active_progress` lets through, and what it finds.
active_guard :
    (w : PageWorkflow) (t : PageTask) (i : ℕ)
    → active_progress w t ≡ ok i
    → (w.cancelled ≡ false)
      × (str_eq t.activity_key (activity_key w.job_id t.page t.attempt) ≡ true)
      × (t.page ≡ suc i)
      × ((p : PageProgress) × (get_elem? w.pages (t.page - 1) ≡ some p)
          × (runs_attempt t.attempt p ≡ true))
unfolding active_progress
active_guard w t i h = elim (Option-cases (get_elem? w.pages (t.page - 1))) [
  | inl e ↦ absurd (ground arith)
  | inr (p, e) ↦ (ground arith, ground arith, ground arith, (p, e, ground arith))
]

IsActive-of :
    (w : PageWorkflow) (t : PageTask) (i : ℕ) → active_progress w t ≡ ok i → IsActive w t i
IsActive-of w t i h =
    let (live, key, number, found) = active_guard w t i h in
    let place : t.page - 1 ≡ i = omega arith in
    record {
      live = live;
      keyed = (str_eq_iff _ _).0 key;
      numbered = number;
      found = rw place at (found.1 ∙ ap some (running-of t.attempt found.0 found.2));
    }

active-progress :
    (w : PageWorkflow) (t : PageTask) (i : ℕ) → IsActive w t i → active_progress w t ≡ ok i
unfolding active_progress
active-progress w t i a = ground (
  arith,
  (str_eq_iff t.activity_key (activity_key w.job_id t.page t.attempt)).1 a.keyed,
  runs_self t.attempt,
)

-- A task is taken exactly if it is the one that its page is running, in a workflow that is not
-- cancelled; any other is refused as stale.
pub active_progress_iff :
    (w : PageWorkflow) (t : PageTask) (i : ℕ) → (active_progress w t ≡ ok i) ↔ IsActive w t i
active_progress_iff w t i = (IsActive-of w t i, active-progress w t i)

pub active_outcomes :
    (w : PageWorkflow) (t : PageTask)
    → (active_progress w t ≡ ok (t.page - 1)) ⊎ (active_progress w t ≡ err stale_page_task)
unfolding active_progress
active_outcomes w t = elim (Option-cases (get_elem? w.pages (t.page - 1))) [
  | inl e ↦ ground arith
  | inr (p, e) ↦ ground arith
]
