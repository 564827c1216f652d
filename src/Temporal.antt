-- ===== src/Temporal.antt =====
-- crates/ocr-temporal/src/lib.rs: the inputs and the loops of the two document workflows.
pub mod Activities
pub mod Pages
pub mod Durable
pub mod WorkScopeDispatcher
use document_intelligence.Base.{ℕ, zero, suc, ◌+◌, List, [], ◌∷◌}
use document_intelligence.Base.Text.{Str, codes}

abbrev pub workflow_schema_version : Str
workflow_schema_version = codes "1"

abbrev pub pages_per_run : ℕ
pages_per_run = 50

abbrev pub durable_iterations_per_run : ℕ
durable_iterations_per_run = 50

abbrev pub max_durable_runner_iterations : ℕ
max_durable_runner_iterations = 3000

-- How one execution of a workflow ends: it returns, it continues as a new execution with another
-- input, or an error of one of its activities, or of its own, ends it.
pub data Outcome (F M I : Type 0) : Type 0 where
  finished : M → Outcome F M I
  continued : I → Outcome F M I
  failed : F → Outcome F M I

-- `RangeInclusive`
pub record Range : Type 0 where
  pub start : ℕ
  pub end : ℕ

-- `count` numbers in a row.
abbrev pub upto : ℕ → ℕ → List ℕ
upto zero first = []
upto (suc count) first = first ∷ upto count (first + 1)
