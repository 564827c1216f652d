-- ===== src/Eval.antt =====
-- crates/ocr-eval/src/lib.rs: the measures of recognised text against a reference. The Unicode
-- normalization and the division of two numbers as f64 are parameters. The types `usize` have 64
-- bits.
pub mod Levenshtein
pub mod Scripts
pub mod Laws
pub mod Tests
pub mod Bounds
pub mod Limits
use document_intelligence.Base.{
  ℕ, zero, suc, ◌+◌, ◌*◌, min, Bool, true, false, ◌&&◌, ◌||◌, not, List, [], ◌∷◌, ◌++◌, map, Option,
  none, some, if◌then◌else◌, ltb, ◌==◌, length, Result, ok, err, ◌>>=◌, ◌>>◌, reject_if, u64_max,
  checked_add, checked_mul, saturating_add,
}
use document_intelligence.Base.Text.{Str, str_eq, is_empty, is_whitespace}
use document_intelligence.Domain.Geometry.{F64, positive_zero}
use document_intelligence.Eval.Levenshtein.{levenshtein}

abbrev pub hard_maximum_units : ℕ
hard_maximum_units = 100_0000

abbrev pub hard_maximum_comparison_cells : ℕ
hard_maximum_comparison_cells = 1_0000_0000

pub data Error : Type 0 where
  invalid_limits input_limit_exceeded comparison_limit_exceeded aggregate_overflow : Error

pub record TextEvaluationLimits : Type 0 where
  pub maximum_reference_units : ℕ
  pub maximum_candidate_units : ℕ
  pub maximum_comparison_cells : ℕ

unfoldable pub new_limits : ℕ → ℕ → ℕ → Result Error TextEvaluationLimits
new_limits reference candidate cells =
    if reference == 0
      || (ltb hard_maximum_units reference
          || (candidate == 0
              || (ltb hard_maximum_units candidate
                  || (cells == 0 || ltb hard_maximum_comparison_cells cells))))
    then err invalid_limits
    else ok (record {
      maximum_reference_units = reference;
      maximum_candidate_units = candidate;
      maximum_comparison_cells = cells;
    })

pub record ErrorRate : Type 0 where
  pub edits : ℕ
  pub reference_units : ℕ
  pub rate : Option F64

pub record TextEvaluation : Type 0 where
  pub characters : ErrorRate
  pub words : ErrorRate

-- `chars().take(maximum + 1).count()`
unfoldable pub bounded_character_count : Str → ℕ → ℕ
bounded_character_count value maximum = min (length value) (saturating_add u64_max maximum 1)

unfoldable pub ensure_unit_limits : ℕ → ℕ → TextEvaluationLimits → Result Error (Unit {0})
ensure_unit_limits reference candidate limits =
    if ltb limits.maximum_reference_units reference || ltb limits.maximum_candidate_units candidate
    then err input_limit_exceeded
    else ok tt

unfoldable pub comparison_cells : ℕ → ℕ → Result Error ℕ
comparison_cells reference candidate = elim (checked_mul u64_max reference candidate) [
  | none ↦ err comparison_limit_exceeded
  | some cells ↦ ok cells
]

-- `is_none_or(|cells| cells > maximum)` of the checked sum
abbrev pub exceeds : ℕ → Option ℕ → Bool
exceeds maximum none = true
exceeds maximum (some cells) = ltb maximum cells

-- `split_whitespace`: the words between white space, from the last to the first. The first
-- component is the word that a text begins with, which may be empty.
abbrev pub add_word : Str → List Str → List Str
add_word [] ws = ws
add_word (c ∷ w) ws = (c ∷ w) ∷ ws

abbrev pub extend_word : ℕ → Str × List Str → Str × List Str
extend_word c (w, ws) = if is_whitespace c then ([], add_word w ws) else (c ∷ w, ws)

abbrev pub split_first : Str → Str × List Str
split_first [] = ([], [])
split_first (c ∷ s) = extend_word c (split_first s)

abbrev pub split_whitespace : Str → List Str
split_whitespace s = add_word (split_first s).0 (split_first s).1

-- `try_fold` over the rates, from a sum on
unfoldable pub sum_rates : ℕ → ℕ → List ErrorRate → Result Error (ℕ × ℕ)
sum_rates edits units [] = ok (edits, units)
sum_rates edits units (r ∷ rs) = elim (checked_add u64_max edits r.edits) [
  | none ↦ err aggregate_overflow
  | some e ↦ elim (checked_add u64_max units r.reference_units) [
    | none ↦ err aggregate_overflow
    | some u ↦ sum_rates e u rs
  ]
]

module _ (divide : ℕ → ℕ → F64) where
  -- `ErrorRate::new`
  unfoldable pub new_error_rate : ℕ → ℕ → ℕ → ErrorRate
  new_error_rate edits reference candidate = record {
    edits = edits;
    reference_units = reference;
    rate =
        if reference == 0
        then (if candidate == 0 then some positive_zero else none)
        else some (divide edits reference);
  }

  -- What `evaluate_text` does with the normalized texts.
  unfoldable pub evaluate_normalized :
      Str → Str → TextEvaluationLimits → Result Error TextEvaluation
  unfolding new_error_rate ensure_unit_limits comparison_cells levenshtein str_eq
  evaluate_normalized reference candidate limits =
      ensure_unit_limits (length reference) (length candidate) limits
      >> (comparison_cells (length reference) (length candidate) >>= λ character_cells.
          comparison_cells (length (split_whitespace reference))
            (length (split_whitespace candidate))
          >>= λ word_cells.
              reject_if
                (exceeds limits.maximum_comparison_cells
                  (checked_add u64_max character_cells word_cells))
                comparison_limit_exceeded
              >> ok (record {
                characters =
                    new_error_rate (levenshtein (λ a b. a == b) reference candidate)
                      (length reference) (length candidate);
                words =
                    new_error_rate
                      (levenshtein str_eq (split_whitespace reference) (split_whitespace candidate))
                      (length (split_whitespace reference)) (length (split_whitespace candidate));
              }))

  module _ (nfc : Str → Str) where
    unfoldable pub evaluate_text : Str → Str → TextEvaluationLimits → Result Error TextEvaluation
    unfolding evaluate_normalized bounded_character_count
    evaluate_text reference candidate limits =
        ensure_unit_limits (bounded_character_count reference limits.maximum_reference_units)
          (bounded_character_count candidate limits.maximum_candidate_units) limits
        >> evaluate_normalized (nfc reference) (nfc candidate) limits

  unfoldable pub aggregate_error_rates : List ErrorRate → Result Error ErrorRate
  unfolding sum_rates new_error_rate
  aggregate_error_rates rates =
      sum_rates 0 0 rates >>= λ totals. ok (new_error_rate totals.0 totals.1 totals.0)

  unfoldable pub aggregate_text_evaluations : List TextEvaluation → Result Error TextEvaluation
  unfolding aggregate_error_rates
  aggregate_text_evaluations evaluations =
      aggregate_error_rates (map (λ v. v.characters) evaluations) >>= λ characters.
      aggregate_error_rates (map (λ v. v.words) evaluations) >>= λ words.
      ok (record { characters = characters; words = words })
