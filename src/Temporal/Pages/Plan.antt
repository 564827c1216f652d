-- ===== src/Temporal/Pages/Plan.antt =====
-- `WorkflowPlan::new` against the inputs that the workflow writes for itself.
use document_intelligence.Base.{
  ℕ, zero, suc, min, ◌+◌, ◌-◌, ◌*◌, ◌/◌, ◌≤◌, ◌<◌, ◌≡◌, ap, ◌∙◌, inl, inr, Bool, true, false, List,
  [], ◌∷◌, Option, none, some, arith, leb, ltb, leb→le, le→leb, saturating_add, u32_max, get_elem?,
  length, ok, Bool-cases,
}
use document_intelligence.PageWorkflow.{maximum_page_count}
use document_intelligence.Temporal.{pages_per_run}
use document_intelligence.Temporal.Pages.{
  WorkflowRun, WorkflowRunInput, page_range, next_run, plan_from, new_workflow_plan,
}
use document_intelligence.Temporal.Pages.Inputs.{IsRun, Reached, Reached-IsRun, next_run-IsRun}

-- The run that starts at a page.
abbrev run_at : ℕ → ℕ → WorkflowRun
run_at first_page page_count = record {
  first_page = first_page;
  last_page = min (first_page + 49) page_count;
  continues_as_new = ltb (min (first_page + 49) page_count) page_count;
}

plan_from-cons :
    (fuel first_page page_count : ℕ)
    → first_page ≤ page_count
    → page_count ≤ maximum_page_count
    → plan_from (suc fuel) first_page page_count
      ≡ run_at first_page page_count
        ∷ plan_from fuel (min (first_page + 49) page_count + 1) page_count
unfolding plan_from
plan_from-cons fuel first_page page_count h k =
    let unsaturated : min (saturating_add u32_max first_page 49) page_count
        ≡ min (first_page + 49) page_count =
      omega arith in
    rw (le→leb _ _ h, unsaturated)

get_elem?-plan_from :
    (fuel runs first_page page_count : ℕ)
    → page_count < first_page + fuel
    → first_page + pages_per_run * runs ≤ page_count
    → page_count ≤ maximum_page_count
    → get_elem? (plan_from fuel first_page page_count) runs
      ≡ some (run_at (first_page + pages_per_run * runs) page_count)
get_elem?-plan_from zero runs first_page page_count h l k = absurd (omega arith)
get_elem?-plan_from (suc fuel) zero first_page page_count h l k =
    let here : first_page + pages_per_run * 0 ≡ first_page = omega arith in
    rw (plan_from-cons fuel first_page page_count (omega arith) k, here)
get_elem?-plan_from (suc fuel) (suc runs) first_page page_count h l k =
    let further : min (first_page + 49) page_count + 1 ≡ first_page + 50 = omega arith in
    let place : first_page + pages_per_run * suc runs ≡ first_page + 50 + pages_per_run * runs =
      omega arith in
    rw (plan_from-cons fuel first_page page_count (omega arith) k, further, place)
      (get_elem?-plan_from fuel runs (first_page + 50) page_count (omega arith) (omega arith) k)

abbrev pub is_some {ℓ} : {A : Type ℓ} → Option A → Bool
is_some none = false
is_some (some a) = true

run_at-IsRun :
    (runs : ℕ) (r : WorkflowRunInput)
    → IsRun runs r
    → run_at (1 + pages_per_run * runs) r.page_count ≡ record {
      first_page = (page_range r).start;
      last_page = (page_range r).end;
      continues_as_new = is_some (next_run r);
    }
unfolding page_range
run_at-IsRun runs r h = ground (arith, next_run-IsRun runs r h, h.page, h.few_pages)

plan_shape :
    (page_count : ℕ) (plan : List WorkflowRun)
    → new_workflow_plan page_count ≡ ok plan
    → (page_count ≤ maximum_page_count) × (plan_from page_count 1 page_count ≡ plan)
unfolding new_workflow_plan
plan_shape page_count plan h = ground arith

-- The plan of a document holds, for each execution that the workflow reaches on it, at the place of
-- its run number, its page range and whether another execution follows it.
pub plan-Reached :
    (plan : List WorkflowRun) (r : WorkflowRunInput)
    → new_workflow_plan r.page_count ≡ ok plan
    → Reached r
    → get_elem? plan (r.run_number - 1)
      ≡ some (record {
        first_page = (page_range r).start;
        last_page = (page_range r).end;
        continues_as_new = is_some (next_run r);
      })
plan-Reached plan r h reached =
    let (runs, k) = Reached-IsRun reached in
    let (few, e) = plan_shape r.page_count plan h in
    let place : r.run_number - 1 ≡ runs = omega (arith, k.number) in
    rw (← e, place)
      (get_elem?-plan_from r.page_count runs 1 r.page_count (omega arith)
          (omega (arith, k.page, k.page_left)) few
        ∙ ap some (run_at-IsRun runs r k))

plan_from-nil :
    (fuel first_page page_count : ℕ)
    → page_count < first_page
    → plan_from (suc fuel) first_page page_count ≡ []
unfolding plan_from
plan_from-nil fuel first_page page_count h = ground arith

length-plan_from :
    (fuel first_page page_count : ℕ)
    → 1 ≤ first_page
    → page_count < first_page + fuel
    → page_count ≤ maximum_page_count
    → length (plan_from fuel first_page page_count) ≡ (page_count + 50 - first_page) / pages_per_run
length-plan_from zero first_page page_count o h k = unfold plan_from in omega arith
length-plan_from (suc fuel) first_page page_count o h k =
    elim (Bool-cases (leb first_page page_count)) [
      | inl more ↦
          (let last = min (first_page + 49) page_count in
            rw (plan_from-cons fuel first_page page_count (leb→le _ _ more) k) (
              omega (
                arith,
                length-plan_from fuel (last + 1) page_count (omega arith) (ground arith) k,
                leb→le first_page page_count more,
              )))
      | inr done ↦
          (let past : page_count < first_page = ground arith in
            rw (plan_from-nil fuel first_page page_count past) (omega arith))
    ]

-- A plan has as many runs as fifty pages each need.
pub length-plan :
    (page_count : ℕ) (plan : List WorkflowRun)
    → new_workflow_plan page_count ≡ ok plan
    → length plan ≡ (page_count + 49) / pages_per_run
length-plan page_count plan h =
    let (few, e) = plan_shape page_count plan h in
    rw (← e) (
      length-plan_from page_count 1 page_count (omega arith) (omega arith) few
      ∙ ap (λ (n : ℕ). n / 50) (omega arith))
