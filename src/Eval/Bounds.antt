-- ===== src/Eval/Bounds.antt =====
-- The sums that `aggregate_error_rates` of crates/ocr-eval/src/lib.rs forms.
use mathlib.Core.Path.{ap₂}
use document_intelligence.Base.{
  ℕ, ◌+◌, ◌≤◌, ◌<◌, ◌≡◌, ◌⊎◌, inl, inr, ap, ◌∙◌, List, [], ◌∷◌, arith, Result, ok, err, ◌>>=◌,
  u64_max,
}
use document_intelligence.Domain.Geometry.{F64}
use document_intelligence.Eval.{
  Error, ErrorRate, new_error_rate, sum_rates, aggregate_error_rates, aggregate_overflow,
}

-- The sums that a list of rates adds up to.
abbrev pub total_edits : List ErrorRate → ℕ
total_edits [] = 0
total_edits (r ∷ rs) = r.edits + total_edits rs

abbrev pub total_units : List ErrorRate → ℕ
total_units [] = 0
total_units (r ∷ rs) = r.reference_units + total_units rs

-- Both totals fit 64 bits.
abbrev pub Fits : ℕ → ℕ → Type 0
Fits edits units = (edits ≤ u64_max) × (units ≤ u64_max)

abbrev pub Overflows : ℕ → ℕ → Type 0
Overflows edits units = (u64_max < edits) ⊎ (u64_max < units)

sum_rates-Fits :
    (edits units : ℕ) (r : ErrorRate) (rs : List ErrorRate)
    → Fits (edits + r.edits) (units + r.reference_units)
    → sum_rates edits units (r ∷ rs) ≡ sum_rates (edits + r.edits) (units + r.reference_units) rs
unfolding sum_rates
sum_rates-Fits edits units r rs f = ground (arith, f.0, f.1)

sum_rates-Overflows :
    (edits units : ℕ) (r : ErrorRate) (rs : List ErrorRate)
    → Overflows (edits + r.edits) (units + r.reference_units)
    → sum_rates edits units (r ∷ rs) ≡ err aggregate_overflow
unfolding sum_rates
sum_rates-Overflows edits units r rs (inl o) = ground (arith, o)
sum_rates-Overflows edits units r rs (inr o) = ground (arith, o)

Fits-or_Overflows : (a b : ℕ) → Fits a b ⊎ Overflows a b
Fits-or_Overflows a b = ground arith

-- The sum is exact, and it is refused exactly if it does not fit.
sum_rates-total :
    (edits units : ℕ) (rs : List ErrorRate)
    → Fits edits units
    → Fits (edits + total_edits rs) (units + total_units rs)
        × (sum_rates edits units rs ≡ ok (edits + total_edits rs, units + total_units rs))
      ⊎ Overflows (edits + total_edits rs) (units + total_units rs)
        × (sum_rates edits units rs ≡ err aggregate_overflow)
unfolding sum_rates
sum_rates-total edits units [] f =
    inl
      ((omega (arith, f.0), omega (arith, f.1)), ap₂ (λ a b. ok (a, b)) (omega arith) (omega arith))
sum_rates-total edits units (r ∷ rs) f =
    elim (Fits-or_Overflows (edits + r.edits) (units + r.reference_units)) [
      | inr o ↦ inr (ground (arith, o), sum_rates-Overflows edits units r rs o)
      | inl g ↦
          (let step = sum_rates-Fits edits units r rs g in
            elim (sum_rates-total (edits + r.edits) (units + r.reference_units) rs g) [
              | inl (k, h) ↦ inl (
                (omega (arith, k.0), omega (arith, k.1)),
                step ∙ h ∙ ap₂ (λ a b. ok (a, b)) (omega arith) (omega arith),
              )
              | inr (o, h) ↦ inr (ground (arith, o), step ∙ h)
            ])
    ]

module _ (divide : ℕ → ℕ → F64) where
  -- Rates are aggregated to their sums, with the rate of these, if both sums fit 64 bits, and the
  -- aggregation is refused as an overflow if one does not.
  pub aggregate_error_rates-total :
      (rs : List ErrorRate)
      → Fits (total_edits rs) (total_units rs)
          × (aggregate_error_rates divide rs
              ≡ ok (new_error_rate divide (total_edits rs) (total_units rs) (total_edits rs)))
        ⊎ Overflows (total_edits rs) (total_units rs)
          × (aggregate_error_rates divide rs ≡ err aggregate_overflow)
  unfolding aggregate_error_rates
  aggregate_error_rates-total rs =
      let go : Result Error (ℕ × ℕ) → Result Error ErrorRate =
        λ r. r >>= λ totals. ok (new_error_rate divide totals.0 totals.1 totals.0) in
      elim (sum_rates-total 0 0 rs (omega arith, omega arith)) [
        | inl (f, h) ↦ inl (
          (omega (arith, f.0), omega (arith, f.1)),
          ap go h ∙ ap₂ (λ a b. ok (new_error_rate divide a b a)) (omega arith) (omega arith),
        )
        | inr (o, h) ↦ inr (ground (arith, o), ap go h)
      ]
