-- ===== src/Eval/Limits.antt =====
-- Which texts `evaluate_text` of crates/ocr-eval/src/lib.rs measures.
use document_intelligence.Base.{
  ℕ, ◌+◌, ◌*◌, ◌≤◌, ◌<◌, ◌≡◌, ◌⊎◌, inl, inr, ap, ◌∙◌, arith, ◌==◌, length, Result, ok, err, ◌>>◌,
}
use document_intelligence.Base.Text.{Str, str_eq}
use document_intelligence.Domain.Geometry.{F64}
use document_intelligence.Eval.{
  Error, TextEvaluationLimits, TextEvaluation, new_limits, new_error_rate, ensure_unit_limits,
  bounded_character_count, evaluate_normalized, evaluate_text, split_whitespace,
  input_limit_exceeded, comparison_limit_exceeded,
}
use document_intelligence.Eval.Levenshtein.{levenshtein}

-- Two texts are within the limits on their lengths.
abbrev pub IsShort : TextEvaluationLimits → Str → Str → Type 0
IsShort limits reference candidate =
    (length reference ≤ limits.maximum_reference_units)
    × (length candidate ≤ limits.maximum_candidate_units)

abbrev pub IsLong : TextEvaluationLimits → Str → Str → Type 0
IsLong limits reference candidate =
    (limits.maximum_reference_units < length reference)
    ⊎ (limits.maximum_candidate_units < length candidate)

-- The entries of the two tables that are filled.
abbrev pub work : Str → Str → ℕ
work reference candidate =
    length reference * length candidate
    + length (split_whitespace reference) * length (split_whitespace candidate)

IsShort-or_IsLong :
    (limits : TextEvaluationLimits) (r c : Str) → IsShort limits r c ⊎ IsLong limits r c
IsShort-or_IsLong limits r c = ground arith

le_or_lt : (a b : ℕ) → (a ≤ b) ⊎ (b < a)
le_or_lt a b = ground arith

counted :
    (r c : Str) (limits : TextEvaluationLimits)
    → IsShort limits r c
    → ensure_unit_limits
        (bounded_character_count r limits.maximum_reference_units)
        (bounded_character_count c limits.maximum_candidate_units)
        limits
      ≡ ok tt
unfolding ensure_unit_limits bounded_character_count
counted r c limits s = ground (arith, s.0, s.1)

limits_bounds :
    (a b c : ℕ) (limits : TextEvaluationLimits)
    → new_limits a b c ≡ ok limits
    → (limits.maximum_reference_units ≤ 100_0000)
      × (limits.maximum_candidate_units ≤ 100_0000)
      × (limits.maximum_comparison_cells ≤ 1_0000_0000)
unfolding new_limits
limits_bounds a b c limits h = (ground arith, ground arith, ground arith)

module _ (divide : ℕ → ℕ → F64) where
  abbrev pub measured : Str → Str → TextEvaluation
  measured reference candidate = record {
    characters =
        new_error_rate divide (levenshtein (λ a b. a == b) reference candidate) (length reference)
          (length candidate);
    words =
        new_error_rate divide
          (levenshtein str_eq (split_whitespace reference) (split_whitespace candidate))
          (length (split_whitespace reference)) (length (split_whitespace candidate));
  }

  normalized_long :
      (r c : Str) (limits : TextEvaluationLimits)
      → IsLong limits r c
      → ◌≡◌ {A = Result Error TextEvaluation}
          (evaluate_normalized divide r c limits)
          (err input_limit_exceeded)
  unfolding evaluate_normalized
  normalized_long r c limits (inl o) = ground (arith, o)
  normalized_long r c limits (inr o) = ground (arith, o)

  normalized_done :
      (r c : Str) (limits : TextEvaluationLimits)
      → limits.maximum_comparison_cells ≤ 1_0000_0000
      → IsShort limits r c
      → work r c ≤ limits.maximum_comparison_cells
      → ◌≡◌ {A = Result Error TextEvaluation}
          (evaluate_normalized divide r c limits)
          (ok (measured r c))
  unfolding evaluate_normalized
  normalized_done r c limits m s w = ground (arith, m, s.0, s.1, w)

  normalized_heavy :
      (r c : Str) (limits : TextEvaluationLimits)
      → IsShort limits r c
      → limits.maximum_comparison_cells < work r c
      → ◌≡◌ {A = Result Error TextEvaluation}
          (evaluate_normalized divide r c limits)
          (err comparison_limit_exceeded)
  unfolding evaluate_normalized
  normalized_heavy r c limits s w = ground (arith, s.0, s.1, w)

  module _ (nfc : Str → Str) where
    text_long :
        (r c : Str) (limits : TextEvaluationLimits)
        → limits.maximum_reference_units ≤ 100_0000
        → limits.maximum_candidate_units ≤ 100_0000
        → IsLong limits r c
        → ◌≡◌ {A = Result Error TextEvaluation}
            (evaluate_text divide nfc r c limits)
            (err input_limit_exceeded)
    unfolding evaluate_text
    text_long r c limits x y (inl o) = ground (arith, x, o)
    text_long r c limits x y (inr o) = ground (arith, y, o)

    text_short :
        (r c : Str) (limits : TextEvaluationLimits)
        → IsShort limits r c
        → evaluate_text divide nfc r c limits ≡ evaluate_normalized divide (nfc r) (nfc c) limits
    unfolding evaluate_text
    text_short r c limits s =
        ap (λ e. e >> evaluate_normalized divide (nfc r) (nfc c) limits) (counted r c limits s)

    -- Under limits that were accepted, an evaluation has one of three results. It measures the
    -- normalized texts if the texts, before and after normalization, have no more characters than
    -- allowed and the tables no more entries; it refuses longer texts, and then larger tables.
    pub evaluate_text_outcomes :
        (a b k : ℕ) (limits : TextEvaluationLimits) (r c : Str)
        → new_limits a b k ≡ ok limits
        → IsShort limits r c
            × IsShort limits (nfc r) (nfc c)
            × (work (nfc r) (nfc c) ≤ limits.maximum_comparison_cells)
            × (evaluate_text divide nfc r c limits ≡ ok (measured (nfc r) (nfc c)))
          ⊎ (IsLong limits r c ⊎ IsLong limits (nfc r) (nfc c))
            × (evaluate_text divide nfc r c limits ≡ err input_limit_exceeded)
          ⊎ IsShort limits r c
            × IsShort limits (nfc r) (nfc c)
            × (limits.maximum_comparison_cells < work (nfc r) (nfc c))
            × (evaluate_text divide nfc r c limits ≡ err comparison_limit_exceeded)
    evaluate_text_outcomes a b k limits r c h =
        let (x, y, z) = limits_bounds a b k limits h in
        let n = nfc r in
        let m = nfc c in
        elim (IsShort-or_IsLong limits r c) [
          | inr o ↦ inr (inl (inl o, text_long r c limits x y o))
          | inl s ↦ elim (IsShort-or_IsLong limits n m) [
            | inr o ↦ inr (inl (inr o, text_short r c limits s ∙ normalized_long n m limits o))
            | inl t ↦ elim (le_or_lt (work n m) limits.maximum_comparison_cells) [
              | inl w ↦ inl (s, t, w, text_short r c limits s ∙ normalized_done n m limits z t w)
              | inr w ↦
                  inr (inr (s, t, w, text_short r c limits s ∙ normalized_heavy n m limits t w))
            ]
          ]
        ]
