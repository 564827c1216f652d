-- ===== src/Temporal/Pages.antt =====
-- `WorkflowRunInput`, `WorkflowPlan` and `OcrDocumentWorkflow` of crates/ocr-temporal/src/lib.rs.
-- An activity is a parameter: for each page it returns or fails.
pub mod Inputs
pub mod Chain
pub mod Documents
pub mod Plan
pub mod Tests
use document_intelligence.Base.{
  ℕ, zero, suc, ◌+◌, ◌-◌, ◌*◌, ◌≤◌, ◌≡◌, min, Bool, true, false, ◌||◌, not, List, [], ◌∷◌, ◌++◌,
  Option, none, some, if◌then◌else◌, ltb, leb, ◌==◌, within, length, Result, ok, err, u32_max,
  checked_add, checked_sub, checked_mul, saturating_add, and_then,
}
use document_intelligence.Base.Text.{Str, str_eq}
use document_intelligence.Domain.Ids.{ProductId, TenantId, JobId}
use document_intelligence.PageWorkflow.{maximum_page_count}
use document_intelligence.Temporal.{
  workflow_schema_version, pages_per_run, Outcome, finished, continued, failed, Range,
}

pub data InputError : Type 0 where
  invalid_workflow_input invalid_workflow_run_input invalid_workflow_plan : InputError

pub record WorkflowInput : Type 0 where
  pub schema_version : Str
  pub product_id : ProductId
  pub tenant_id : TenantId
  pub job_id : JobId
  pub page_count : ℕ

-- `WorkflowInput::new`, over the encoder of serde_json, which may fail.
unfoldable pub new_workflow_input :
    (WorkflowInput → Option (List ℕ))
    → ProductId
    → TenantId
    → JobId
    → ℕ
    → Result InputError WorkflowInput
new_workflow_input to_vec product_id tenant_id job_id page_count =
    let input : WorkflowInput = record {
      schema_version = workflow_schema_version;
      product_id = product_id;
      tenant_id = tenant_id;
      job_id = job_id;
      page_count = page_count;
    } in
    if not (within 1 maximum_page_count page_count)
    then err invalid_workflow_input
    else elim (to_vec input) [
      | none ↦ err invalid_workflow_input
      | some encoded ↦ if ltb 512 (length encoded) then err invalid_workflow_input else ok input
    ]

pub record WorkflowRunInput : Type 0 where
  pub schema_version : Str
  pub product_id : ProductId
  pub tenant_id : TenantId
  pub job_id : JobId
  pub page_count : ℕ
  pub next_page : ℕ
  pub run_number : ℕ

-- `expected != Some(value)`
abbrev pub differs : Option ℕ → ℕ → Bool
differs none value = true
differs (some n) value = not (n == value)

unfoldable pub expected_next_page : ℕ → Option ℕ
expected_next_page run_number =
    and_then (and_then (checked_sub run_number 1) (λ run. checked_mul u32_max run pages_per_run))
      (λ page. checked_add u32_max page 1)

-- The checks of `Deserialize`, on an input read from the wire.
unfoldable pub deserialize_run_input : WorkflowRunInput → Result InputError WorkflowRunInput
deserialize_run_input wire =
    if not (str_eq wire.schema_version workflow_schema_version)
      || (not (within 1 maximum_page_count wire.page_count)
          || (differs (expected_next_page wire.run_number) wire.next_page
              || ltb wire.page_count wire.next_page))
    then err invalid_workflow_run_input
    else ok wire

unfoldable pub first : WorkflowInput → WorkflowRunInput
first input = record {
  schema_version = input.schema_version;
  product_id = input.product_id;
  tenant_id = input.tenant_id;
  job_id = input.job_id;
  page_count = input.page_count;
  next_page = 1;
  run_number = 1;
}

unfoldable pub page_range : WorkflowRunInput → Range
page_range input = record {
  start = input.next_page;
  end = min (saturating_add u32_max input.next_page (pages_per_run - 1)) input.page_count;
}

unfoldable pub next_run : WorkflowRunInput → Option WorkflowRunInput
unfolding page_range
next_run input =
    let next_page = saturating_add u32_max (page_range input).end 1 in
    if leb next_page input.page_count
    then some (record input {
      next_page = next_page;
      run_number = saturating_add u32_max input.run_number 1;
    })
    else none

pub record WorkflowResultMetadata : Type 0 where
  pub pages_processed : ℕ
  pub runs : ℕ

-- What follows the loop: its failure, or the next run, or the end.
abbrev pub after_pages :
    {F : Type 0} → WorkflowRunInput → Option F → Outcome F WorkflowResultMetadata WorkflowRunInput
after_pages input (some f) = failed f
after_pages input none = elim (next_run input) [
  | some next ↦ continued next
  | none ↦ finished (record { pages_processed = input.page_count; runs = input.run_number })
]

module _ {F : Type 0} (process_page : ℕ → Result F (Unit {0})) where
  -- The loop over the pages: those that were processed, and the failure that ended it.
  unfoldable pub process_pages : ℕ → ℕ → List ℕ × Option F
  process_pages zero page = ([], none)
  process_pages (suc count) page = elim (process_page page) [
    | err f ↦ ([], some f)
    | ok _ ↦ (let rest = process_pages count (page + 1) in (page ∷ rest.0, rest.1))
  ]

  -- `OcrDocumentWorkflow::run`; `continue_as_new` ends the execution.
  unfoldable pub workflow_run :
      WorkflowRunInput → List ℕ × Outcome F WorkflowResultMetadata WorkflowRunInput
  workflow_run input =
      let range = page_range input in
      let done = process_pages (suc range.end - range.start) range.start in
      (done.0, after_pages input done.1)

  -- The executions that Temporal starts one after another; `none` means that the fuel ran out.
  unfoldable pub run_chain :
      ℕ → WorkflowRunInput → Option (List ℕ × Result F WorkflowResultMetadata)
  run_chain zero input = none
  run_chain (suc fuel) input = elim (workflow_run input).1 [
    | finished m ↦ some ((workflow_run input).0, ok m)
    | failed f ↦ some ((workflow_run input).0, err f)
    | continued next ↦ elim (run_chain fuel next) [
      | none ↦ none
      | some (pages, r) ↦ some ((workflow_run input).0 ++ pages, r)
    ]
  ]

pub record WorkflowRun : Type 0 where
  pub first_page : ℕ
  pub last_page : ℕ
  pub continues_as_new : Bool

-- The `while` loop of `WorkflowPlan::new`. Each round plans at least one page, so `page_count`
-- rounds suffice.
unfoldable pub plan_from : ℕ → ℕ → ℕ → List WorkflowRun
plan_from zero first_page page_count = []
plan_from (suc fuel) first_page page_count =
    let last_page = min (saturating_add u32_max first_page (pages_per_run - 1)) page_count in
    let rest = plan_from fuel (last_page + 1) page_count in
    if leb first_page page_count
    then record {
      first_page = first_page;
      last_page = last_page;
      continues_as_new = ltb last_page page_count;
    }
      ∷ rest
    else []

unfoldable pub new_workflow_plan : ℕ → Result InputError (List WorkflowRun)
new_workflow_plan page_count =
    if not (within 1 maximum_page_count page_count)
    then err invalid_workflow_plan
    else ok (plan_from page_count 1 page_count)
