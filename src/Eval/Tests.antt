-- ===== src/Eval/Tests.antt =====
-- Distances and evaluations of short texts, and the theorems at these inputs.
use document_intelligence.Base.{
  ℕ, ◌≤◌, ◌<◌, ◌≡◌, ◌⊎◌, refl, List, [], ◌∷◌, some, ◌==◌, ==_iff, ok, err,
}
use document_intelligence.Base.Text.{Str, codes}
use document_intelligence.Domain.Geometry.{F64, one}
use document_intelligence.Eval.{
  TextEvaluationLimits, ErrorRate, new_limits, new_error_rate, evaluate_text, aggregate_error_rates,
  split_whitespace, invalid_limits, input_limit_exceeded, comparison_limit_exceeded,
  aggregate_overflow,
}
use document_intelligence.Eval.Levenshtein.{levenshtein}
use document_intelligence.Eval.Laws.{IsLeastEdits, levenshtein-IsLeastEdits}
use document_intelligence.Eval.Bounds.{
  Fits, Overflows, total_edits, total_units, aggregate_error_rates-total,
}
use document_intelligence.Eval.Limits.{IsShort, IsLong, work, measured, evaluate_text_outcomes}

kitten : levenshtein (λ a b. a == b) (codes "kitten") (codes "sitting") ≡ 3
unfolding levenshtein
kitten = refl

abbrev words_of : List Str
words_of = codes "to" ∷ codes "be" ∷ []

split : split_whitespace (codes "  to be ") ≡ words_of
split = refl

levenshtein-IsLeastEdits_example :
    IsLeastEdits
      (levenshtein (λ a b. a == b) (codes "kitten") (codes "sitting"))
      (codes "kitten")
      (codes "sitting")
levenshtein-IsLeastEdits_example =
    levenshtein-IsLeastEdits (λ a b. a == b) ==_iff (codes "kitten") (codes "sitting")

abbrev quotient : ℕ → ℕ → F64
quotient a b = one

abbrev same : Str → Str
same s = s

abbrev rates : List ErrorRate
rates =
    record { edits = 2; reference_units = 10; rate = some one }
    ∷ record { edits = 3; reference_units = 7; rate = some one }
    ∷ []

aggregate_error_rates-total_example :
    Fits (total_edits rates) (total_units rates)
      × (aggregate_error_rates quotient rates
          ≡ ok
              (new_error_rate quotient (total_edits rates) (total_units rates) (total_edits rates)))
    ⊎ Overflows (total_edits rates) (total_units rates)
      × (aggregate_error_rates quotient rates ≡ err aggregate_overflow)
aggregate_error_rates-total_example = aggregate_error_rates-total quotient rates

abbrev limits : TextEvaluationLimits
limits = record {
  maximum_reference_units = 10;
  maximum_candidate_units = 10;
  maximum_comparison_cells = 50;
}

limits_made :
    (new_limits 10 10 50 ≡ ok limits)
    × (new_limits 0 10 50 ≡ err invalid_limits)
    × (new_limits 10 10 1_0000_0001 ≡ err invalid_limits)
unfolding new_limits
limits_made = (refl, refl, refl)

evaluate_text_outcomes_example :
    IsShort limits (codes "to be") (codes "to bee")
      × IsShort limits (codes "to be") (codes "to bee")
      × (work (codes "to be") (codes "to bee") ≤ limits.maximum_comparison_cells)
      × (evaluate_text quotient same (codes "to be") (codes "to bee") limits
          ≡ ok (measured quotient (codes "to be") (codes "to bee")))
    ⊎ (IsLong limits (codes "to be") (codes "to bee")
        ⊎ IsLong limits (codes "to be") (codes "to bee"))
      × (evaluate_text quotient same (codes "to be") (codes "to bee") limits
          ≡ err input_limit_exceeded)
    ⊎ IsShort limits (codes "to be") (codes "to bee")
      × IsShort limits (codes "to be") (codes "to bee")
      × (limits.maximum_comparison_cells < work (codes "to be") (codes "to bee"))
      × (evaluate_text quotient same (codes "to be") (codes "to bee") limits
          ≡ err comparison_limit_exceeded)
evaluate_text_outcomes_example =
    evaluate_text_outcomes quotient same 10 10 50 limits (codes "to be") (codes "to bee")
      limits_made.0
