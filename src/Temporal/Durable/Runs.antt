-- ===== src/Temporal/Durable/Runs.antt =====
-- Which durable run inputs `Deserialize` accepts: the sixty that the workflow writes.
use mathlib.Core.Path.{subst}
use document_intelligence.Base.{
  ℕ, zero, suc, ◌+◌, ◌-◌, ◌*◌, ◌≤◌, ◌<◌, ◌≡◌, ◌↔◌, refl, sym, ◌∙◌, ◌⊎◌, true, false, none, some,
  arith, if◌then◌else◌, leb, ok, err,
}
use document_intelligence.Base.Text.{str_eq, str_eq_iff}
use document_intelligence.Temporal.{
  workflow_schema_version, durable_iterations_per_run, max_durable_runner_iterations,
}
use document_intelligence.Temporal.Pages.{differs}
use document_intelligence.Temporal.Durable.{
  DurableActivityInput, DurableWorkflowRunInput, invalid_durable_workflow_run_input,
  deserialize_run_input, expected_iteration, first, next_run,
}

-- The first input of a document, and the next after each.
pub data Reached : DurableWorkflowRunInput → Type 0 where
  start : {r : DurableWorkflowRunInput} (i : DurableActivityInput) → r ≡ first i → Reached r
  next : {r s : DurableWorkflowRunInput} → Reached r → next_run r ≡ some s → Reached s

pub record IsRun (runs : ℕ) (r : DurableWorkflowRunInput) : Type 0 where
  pub version : r.schema_version ≡ workflow_schema_version
  pub iteration : r.next_iteration ≡ durable_iterations_per_run * runs + 1
  pub number : r.run_number ≡ suc runs
  pub few_runs : runs < 60

-- The run that follows after fifty iterations.
abbrev pub following : DurableWorkflowRunInput → DurableWorkflowRunInput
following r = record r {
  next_iteration = r.next_iteration + durable_iterations_per_run;
  run_number = r.run_number + 1;
}

-- Every run but the sixtieth hands on.
pub next_run-IsRun :
    (runs : ℕ) (r : DurableWorkflowRunInput)
    → IsRun runs r
    → next_run r ≡ (if leb (suc runs) 59 then some (following r) else none)
unfolding next_run
next_run-IsRun runs r h = ground arith

handed_on :
    (runs : ℕ) (r s : DurableWorkflowRunInput)
    → IsRun runs r
    → next_run r ≡ some s
    → (suc runs < 60) × (s ≡ following r)
handed_on runs r s h e = ground (arith, next_run-IsRun runs r h)

pub following-IsRun :
    (runs : ℕ) (r : DurableWorkflowRunInput)
    → IsRun runs r
    → suc runs < 60
    → IsRun (suc runs) (following r)
following-IsRun runs r h l = record {
  version = h.version;
  iteration = omega (arith, h.iteration);
  number = omega (arith, h.number);
  few_runs = l;
}

pub first-IsRun : (i : DurableActivityInput) → IsRun 0 (first i)
unfolding first
first-IsRun i = record { version = refl; iteration = refl; number = refl; few_runs = omega arith }

Reached-IsRun : {r : DurableWorkflowRunInput} → Reached r → (runs : ℕ) × IsRun runs r
Reached-IsRun (start i e) = (0, subst (IsRun 0) (sym e) (first-IsRun i))
Reached-IsRun (next {r} {s} h e) =
    let (runs, k) = Reached-IsRun h in
    let (few, same) = handed_on runs r s k e in
    (suc runs, subst (IsRun (suc runs)) (sym same) (following-IsRun runs r k few))

IsRun-Reached : (runs : ℕ) (r : DurableWorkflowRunInput) → IsRun runs r → Reached r
unfolding first
IsRun-Reached zero r h =
    start
      (record {
        schema_version = r.schema_version;
        product_id = r.product_id;
        tenant_id = r.tenant_id;
        job_id = r.job_id;
      })
      (ground (arith, h.version, h.iteration, h.number))
IsRun-Reached (suc runs) r h =
    let before = record r {
      next_iteration = durable_iterations_per_run * runs + 1;
      run_number = suc runs;
    } in
    let earlier : IsRun runs before = record {
      version = h.version;
      iteration = refl;
      number = refl;
      few_runs = omega (arith, h.few_runs);
    } in
    next (IsRun-Reached runs before earlier)
      (next_run-IsRun runs before earlier ∙ ground (arith, h.iteration, h.number, h.few_runs))

deserialize_guards :
    (w : DurableWorkflowRunInput)
    → deserialize_run_input w ≡ ok w
    → (str_eq w.schema_version workflow_schema_version ≡ true)
      × (differs (expected_iteration w.run_number) w.next_iteration ≡ false)
      × (w.next_iteration ≤ max_durable_runner_iterations)
unfolding deserialize_run_input
deserialize_guards w h = ground arith

expected_iteration_lem :
    (run_number next_iteration : ℕ)
    → differs (expected_iteration run_number) next_iteration ≡ false
    → (run_number ≡ suc (run_number - 1))
      × (next_iteration ≡ durable_iterations_per_run * (run_number - 1) + 1)
unfolding expected_iteration
expected_iteration_lem run_number next_iteration h = ground arith

deserialize-IsRun :
    (w : DurableWorkflowRunInput) → deserialize_run_input w ≡ ok w → IsRun (w.run_number - 1) w
deserialize-IsRun w h =
    let (version, expected, left) = deserialize_guards w h in
    let (number, iteration) = expected_iteration_lem w.run_number w.next_iteration expected in
    record {
      version = (str_eq_iff w.schema_version workflow_schema_version).0 version;
      iteration = iteration;
      number = number;
      few_runs = omega arith;
    }

IsRun-deserialize :
    (runs : ℕ) (w : DurableWorkflowRunInput) → IsRun runs w → deserialize_run_input w ≡ ok w
unfolding deserialize_run_input
IsRun-deserialize runs w h =
    ground (arith, (str_eq_iff w.schema_version workflow_schema_version).1 h.version)

deserialize_outcomes :
    (w : DurableWorkflowRunInput)
    → (deserialize_run_input w ≡ ok w)
      ⊎ (deserialize_run_input w ≡ err invalid_durable_workflow_run_input)
unfolding deserialize_run_input
deserialize_outcomes w = ground arith

-- `Deserialize` accepts exactly the inputs that `first` makes and that `next_run` makes from these;
-- it returns them as they are, and refuses all others.
pub deserialize-iff-Reached_durable :
    (w : DurableWorkflowRunInput)
    → ((deserialize_run_input w ≡ ok w) ↔ Reached w)
      × ((deserialize_run_input w ≡ ok w)
          ⊎ (deserialize_run_input w ≡ err invalid_durable_workflow_run_input))
deserialize-iff-Reached_durable w = (
  (
    λ h. IsRun-Reached (w.run_number - 1) w (deserialize-IsRun w h),
    λ r. let (runs, k) = Reached-IsRun r in IsRun-deserialize runs w k,
  ),
  deserialize_outcomes w,
)
