-- ===== src/Temporal/Pages/Inputs.antt =====
-- Which run inputs `Deserialize` accepts: those that the workflow itself can have written.
use mathlib.Core.Path.{subst}
use document_intelligence.Base.{
  ℕ, zero, suc, ◌+◌, ◌-◌, ◌*◌, ◌≤◌, ◌≡◌, ◌↔◌, refl, sym, ◌∙◌, ◌⊎◌, true, false, none, some, arith,
  if◌then◌else◌, leb, ok, err,
}
use document_intelligence.Base.Text.{str_eq, str_eq_iff}
use document_intelligence.PageWorkflow.{maximum_page_count}
use document_intelligence.Temporal.{workflow_schema_version, pages_per_run}
use document_intelligence.Temporal.Pages.{
  WorkflowInput, WorkflowRunInput, invalid_workflow_run_input, deserialize_run_input,
  expected_next_page, differs, first, next_run,
}

-- The inputs that the workflow writes: the first one, and the next after each.
pub data Reached : WorkflowRunInput → Type 0 where
  start :
      {r : WorkflowRunInput} (i : WorkflowInput)
      → i.schema_version ≡ workflow_schema_version
      → 1 ≤ i.page_count
      → i.page_count ≤ maximum_page_count
      → r ≡ first i
      → Reached r
  next : {r s : WorkflowRunInput} → Reached r → next_run r ≡ some s → Reached s

-- The input of the run after `runs` others.
pub record IsRun (runs : ℕ) (r : WorkflowRunInput) : Type 0 where
  pub version : r.schema_version ≡ workflow_schema_version
  pub few_pages : r.page_count ≤ maximum_page_count
  pub page : r.next_page ≡ pages_per_run * runs + 1
  pub page_left : r.next_page ≤ r.page_count
  pub number : r.run_number ≡ suc runs

-- What a run hands on: fifty pages further, one run later, if there are as many pages.
pub next_run-IsRun :
    (runs : ℕ) (r : WorkflowRunInput)
    → IsRun runs r
    → next_run r ≡ (
        if leb (r.next_page + pages_per_run) r.page_count
        then some
            (record r { next_page = r.next_page + pages_per_run; run_number = r.run_number + 1 })
        else none)
unfolding next_run
next_run-IsRun runs r h = ground arith

handed_on :
    (runs : ℕ) (r s : WorkflowRunInput)
    → IsRun runs r
    → next_run r ≡ some s
    → (r.next_page + pages_per_run ≤ r.page_count)
      × (s ≡ record r { next_page = r.next_page + pages_per_run; run_number = r.run_number + 1 })
handed_on runs r s h e = ground (arith, next_run-IsRun runs r h)

pub IsRun-next_run :
    (runs : ℕ) (r s : WorkflowRunInput) → IsRun runs r → next_run r ≡ some s → IsRun (suc runs) s
IsRun-next_run runs r s h e =
    let (room, same) = handed_on runs r s h e in
    subst (IsRun (suc runs)) (sym same) (record {
      version = h.version;
      few_pages = h.few_pages;
      page = omega (arith, h.page);
      page_left = room;
      number = omega (arith, h.number);
    })

pub Reached-IsRun : {r : WorkflowRunInput} → Reached r → (runs : ℕ) × IsRun runs r
Reached-IsRun (start i v low high e) = (
  0,
  subst (IsRun 0) (sym e) (
      unfold first in
      record {
        version = v;
        few_pages = high;
        page = omega arith;
        page_left = low;
        number = omega arith;
      }),
)
Reached-IsRun (next {r} {s} h e) =
    let (runs, k) = Reached-IsRun h in (suc runs, IsRun-next_run runs r s k e)

pub IsRun-Reached : (runs : ℕ) (r : WorkflowRunInput) → IsRun runs r → Reached r
unfolding first
IsRun-Reached zero r h =
    start
      (record {
        schema_version = r.schema_version;
        product_id = r.product_id;
        tenant_id = r.tenant_id;
        job_id = r.job_id;
        page_count = r.page_count;
      })
      h.version (omega (arith, h.page, h.page_left)) h.few_pages (ground arith)
IsRun-Reached (suc runs) r h =
    let before = record r { next_page = pages_per_run * runs + 1; run_number = suc runs } in
    let earlier : IsRun runs before = record {
      version = h.version;
      few_pages = h.few_pages;
      page = refl;
      page_left = omega (arith, h.page, h.page_left);
      number = refl;
    } in
    next (IsRun-Reached runs before earlier)
      (next_run-IsRun runs before earlier ∙ ground (arith, h.page, h.page_left, h.number))

deserialize_guards :
    (w : WorkflowRunInput)
    → deserialize_run_input w ≡ ok w
    → (str_eq w.schema_version workflow_schema_version ≡ true)
      × (w.page_count ≤ maximum_page_count)
      × (differs (expected_next_page w.run_number) w.next_page ≡ false)
      × (w.next_page ≤ w.page_count)
unfolding deserialize_run_input
deserialize_guards w h = ground arith

expected_page :
    (run_number next_page : ℕ)
    → differs (expected_next_page run_number) next_page ≡ false
    → (run_number ≡ suc (run_number - 1)) × (next_page ≡ pages_per_run * (run_number - 1) + 1)
unfolding expected_next_page
expected_page run_number next_page h = ground arith

deserialize-IsRun :
    (w : WorkflowRunInput) → deserialize_run_input w ≡ ok w → IsRun (w.run_number - 1) w
deserialize-IsRun w h =
    let (version, few, expected, left) = deserialize_guards w h in
    let (number, page) = expected_page w.run_number w.next_page expected in
    record {
      version = (str_eq_iff w.schema_version workflow_schema_version).0 version;
      few_pages = few;
      page = page;
      page_left = left;
      number = number;
    }

IsRun-deserialize :
    (runs : ℕ) (w : WorkflowRunInput) → IsRun runs w → deserialize_run_input w ≡ ok w
unfolding deserialize_run_input expected_next_page
IsRun-deserialize runs w h =
    ground (arith, (str_eq_iff w.schema_version workflow_schema_version).1 h.version)

deserialize_outcomes :
    (w : WorkflowRunInput)
    → (deserialize_run_input w ≡ ok w) ⊎ (deserialize_run_input w ≡ err invalid_workflow_run_input)
unfolding deserialize_run_input
deserialize_outcomes w = ground arith

-- `Deserialize` accepts exactly the inputs that `first` makes for 1 to 1000 pages and that
-- `next_run` makes from these; it returns them as they are, and refuses all others.
pub deserialize-iff-Reached :
    (w : WorkflowRunInput)
    → ((deserialize_run_input w ≡ ok w) ↔ Reached w)
      × ((deserialize_run_input w ≡ ok w)
          ⊎ (deserialize_run_input w ≡ err invalid_workflow_run_input))
deserialize-iff-Reached w = (
  (
    λ h. IsRun-Reached (w.run_number - 1) w (deserialize-IsRun w h),
    λ r. let (runs, k) = Reached-IsRun r in IsRun-deserialize runs w k,
  ),
  deserialize_outcomes w,
)
