-- ===== src/Temporal/Durable.antt =====
-- `DurableWorkflowRunInput` and `DurableDocumentWorkflow` of crates/ocr-temporal/src/lib.rs. The
-- two activities are parameters: for each iteration they return, or fail once their retries ended.
pub mod Runs
pub mod Rounds
pub mod Chain
pub mod Documents
pub mod Tests
use document_intelligence.Base.{
  ℕ, zero, suc, ◌+◌, ◌-◌, ◌≤◌, min, Bool, true, false, ◌||◌, not, List, [], ◌∷◌, ◌++◌, Option, none,
  some, if◌then◌else◌, leb, within, Result, ok, err, u32_max, checked_add, checked_sub, checked_mul,
  saturating_add, and_then,
}
use document_intelligence.Base.Text.{Str, str_eq}
use document_intelligence.Domain.Ids.{ProductId, TenantId, JobId}
use document_intelligence.Temporal.{
  workflow_schema_version, durable_iterations_per_run, max_durable_runner_iterations, Outcome,
  finished, continued, failed, Range,
}
use document_intelligence.Temporal.Activities.{
  DurableActivityStatus, running, completed, partial, cancelled, DurableExecutionErrorKind,
  invalid_input, iteration_limit, ActivityOptions, durable_activity_options,
  finalization_activity_options,
}
use document_intelligence.Temporal.Pages.{differs}

pub record DurableActivityInput : Type 0 where
  pub schema_version : Str
  pub product_id : ProductId
  pub tenant_id : TenantId
  pub job_id : JobId

-- What `Deserialize` refuses; its message is not modelled.
pub data WireError : Type 0 where
  invalid_durable_activity_input invalid_durable_workflow_run_input : WireError

unfoldable pub deserialize_activity_input :
    DurableActivityInput → Result WireError DurableActivityInput
deserialize_activity_input wire =
    if not (str_eq wire.schema_version workflow_schema_version)
    then err invalid_durable_activity_input
    else ok (record {
      schema_version = workflow_schema_version;
      product_id = wire.product_id;
      tenant_id = wire.tenant_id;
      job_id = wire.job_id;
    })

pub record DurableWorkflowRunInput : Type 0 where
  pub schema_version : Str
  pub product_id : ProductId
  pub tenant_id : TenantId
  pub job_id : JobId
  pub next_iteration : ℕ
  pub run_number : ℕ

unfoldable pub expected_iteration : ℕ → Option ℕ
expected_iteration run_number =
    and_then
      (and_then (checked_sub run_number 1)
        (λ run. checked_mul u32_max run durable_iterations_per_run))
      (λ iteration. checked_add u32_max iteration 1)

unfoldable pub deserialize_run_input :
    DurableWorkflowRunInput → Result WireError DurableWorkflowRunInput
unfolding expected_iteration
deserialize_run_input wire =
    if not (str_eq wire.schema_version workflow_schema_version)
      || (differs (expected_iteration wire.run_number) wire.next_iteration
          || not (within 1 max_durable_runner_iterations wire.next_iteration))
    then err invalid_durable_workflow_run_input
    else ok wire

unfoldable pub first : DurableActivityInput → DurableWorkflowRunInput
first input = record {
  schema_version = workflow_schema_version;
  product_id = input.product_id;
  tenant_id = input.tenant_id;
  job_id = input.job_id;
  next_iteration = 1;
  run_number = 1;
}

unfoldable pub iteration_range : DurableWorkflowRunInput → Range
iteration_range input = record {
  start = input.next_iteration;
  end =
      min (saturating_add u32_max input.next_iteration (durable_iterations_per_run - 1))
        max_durable_runner_iterations;
}

unfoldable pub next_run : DurableWorkflowRunInput → Option DurableWorkflowRunInput
unfolding iteration_range
next_run input =
    let next_iteration = saturating_add u32_max (iteration_range input).end 1 in
    if leb next_iteration max_durable_runner_iterations
    then some (record input {
      next_iteration = next_iteration;
      run_number = saturating_add u32_max input.run_number 1;
    })
    else none

pub record DurableWorkflowResultMetadata : Type 0 where
  pub status : DurableActivityStatus
  pub runner_iterations : ℕ
  pub runs : ℕ

-- The calls that the workflow makes, in their order.
pub data Call : Type 0 where
  run_pages : ℕ → Call
  finalize : ℕ → Call

-- An activity's failure, which `?` passes on, or one of the workflow's own.
pub data Failure (F : Type 0) : Type 0 where
  activity : F → Failure F
  own : DurableExecutionErrorKind → Failure F

abbrev pub End : Type 0 → Type 0
End F = Outcome (Failure F) DurableWorkflowResultMetadata DurableWorkflowRunInput

-- The calls that were made, and how the execution ended.
abbrev pub Ending : Type 0 → Type 0
Ending F = List Call × End F

abbrev pub returned : {F : Type 0} → DurableActivityStatus → ℕ → ℕ → End F
returned status iteration runs =
    finished (record { status = status; runner_iterations = iteration; runs = runs })

abbrev pub with_call : {F : Type 0} → ℕ → Option (Ending F) → List Call × Option (End F)
with_call iteration none = (run_pages iteration ∷ [], none)
with_call iteration (some (calls, o)) = (run_pages iteration ∷ calls, some o)

-- What follows the loop: its end, or the next run, or the limit.
abbrev pub after_rounds : {F : Type 0} → DurableWorkflowRunInput → Option (End F) → End F
after_rounds input (some o) = o
after_rounds input none = elim (next_run input) [
  | some next ↦ continued next
  | none ↦ failed (own iteration_limit)
]

module _ {F : Type 0} (run_checkpointed_pages : ℕ → Result F DurableActivityStatus)
    (finalize_document : ℕ → Result F (Unit {0})) where
  -- The finalization of a document whose pages are done.
  unfoldable pub finalize_step : ℕ → DurableActivityStatus → ℕ → Ending F
  finalize_step runs status iteration = elim (finalization_activity_options iteration) [
    | none ↦ ([], failed (own invalid_input))
    | some options ↦ elim (finalize_document iteration) [
      | err f ↦ (finalize iteration ∷ [], failed (activity f))
      | ok _ ↦ (finalize iteration ∷ [], returned status iteration runs)
    ]
  ]

  -- One round of the loop: the calls that it makes, and how it ends the execution, if it does.
  abbrev pub after_status : ℕ → ℕ → DurableActivityStatus → Option (Ending F)
  after_status runs iteration running = none
  after_status runs iteration completed = some (finalize_step runs completed iteration)
  after_status runs iteration partial = some (finalize_step runs partial iteration)
  after_status runs iteration cancelled = some ([], returned cancelled iteration runs)

  unfoldable pub round : ℕ → ℕ → List Call × Option (End F)
  round runs iteration = elim (durable_activity_options iteration) [
    | none ↦ ([], some (failed (own invalid_input)))
    | some options ↦ elim (run_checkpointed_pages iteration) [
      | err f ↦ (run_pages iteration ∷ [], some (failed (activity f)))
      | ok status ↦ with_call iteration (after_status runs iteration status)
    ]
  ]

  unfoldable pub rounds : ℕ → ℕ → ℕ → List Call × Option (End F)
  rounds runs zero iteration = ([], none)
  rounds runs (suc count) iteration = elim (round runs iteration).1 [
    | some o ↦ ((round runs iteration).0, some o)
    | none ↦
        (let rest = rounds runs count (iteration + 1) in
          ((round runs iteration).0 ++ rest.0, rest.1))
  ]

  -- `DurableDocumentWorkflow::run`; `continue_as_new` ends the execution.
  unfoldable pub workflow_run : DurableWorkflowRunInput → Ending F
  workflow_run input =
      let range = iteration_range input in
      let done = rounds input.run_number (suc range.end - range.start) range.start in
      (done.0, after_rounds input done.1)

  -- The executions that Temporal starts one after another; `none` means that the fuel ran out.
  unfoldable pub run_chain :
      ℕ
      → DurableWorkflowRunInput
      → Option (List Call × Result (Failure F) DurableWorkflowResultMetadata)
  run_chain zero input = none
  run_chain (suc fuel) input = elim (workflow_run input).1 [
    | finished m ↦ some ((workflow_run input).0, ok m)
    | failed f ↦ some ((workflow_run input).0, err f)
    | continued next ↦ elim (run_chain fuel next) [
      | none ↦ none
      | some (calls, r) ↦ some ((workflow_run input).0 ++ calls, r)
    ]
  ]
