-- ===== src/Temporal/Activities/Laws.antt =====
-- Activity ids, and which errors are tried again.
use document_intelligence.Base.{
  ℕ, ◌+◌, ◌%◌, ◌≤◌, ◌≡◌, ◌≢◌, ◌↔◌, refl, sym, ap, ◌∙◌, ◌⊎◌, inl, inr, [], ◌++◌, Option, none, some,
  get_elem?, arith,
}
use document_intelligence.Base.Text.{Str, codes}
use document_intelligence.Base.Text.Decimal.{padded, padded-injective}
use document_intelligence.Domain.Errors.{Error}
use document_intelligence.Temporal.Activities.{
  ActivityOptions, durable_activity_options, finalization_activity_options, PageRunnerError,
  invalid_configuration, not_found, retryable_conflict, rate_limited, domain, store, from_ref,
  into_activity_error, after_seconds, by_policy, never,
}

abbrev id_of : Option ActivityOptions → Str
id_of none = []
id_of (some a) = a.activity_id

-- The id of an iteration's page activity, where there is one.
page_id :
    (k : ℕ) {a : ActivityOptions}
    → durable_activity_options k ≡ some a
    → a.activity_id ≡ codes "ocr-runner" ++ (codes "-" ++ padded 4 k)
unfolding durable_activity_options
page_id k h = ground arith

finalize_id :
    (k : ℕ) {a : ActivityOptions}
    → finalization_activity_options k ≡ some a
    → a.activity_id ≡ codes "ocr-finalize-" ++ padded 4 k
unfolding finalization_activity_options
finalize_id k h = ground arith

page_id_letter : (k : ℕ) → get_elem? (codes "ocr-runner" ++ (codes "-" ++ padded 4 k)) 4 ≡ some 114
page_id_letter k = refl

finalize_id_letter : (k : ℕ) → get_elem? (codes "ocr-finalize-" ++ padded 4 k) 4 ≡ some 102
finalize_id_letter k = refl

same_id :
    {o p : Option ActivityOptions} (a b : ActivityOptions)
    → o ≡ p
    → o ≡ some a
    → p ≡ some b
    → a.activity_id ≡ b.activity_id
same_id a b e h k = ap id_of (sym h ∙ e ∙ k)

-- Within a document no two activities share an id: the ids of two page activities are equal exactly
-- if their iterations are, so are those of two finalizations, and a page activity and a
-- finalization never have the same.
pub activity_ids_distinct :
    (j k : ℕ) (a b c d : ActivityOptions)
    → durable_activity_options j ≡ some a
    → durable_activity_options k ≡ some b
    → finalization_activity_options j ≡ some c
    → finalization_activity_options k ≡ some d
    → ((a.activity_id ≡ b.activity_id) ↔ (j ≡ k))
      × ((c.activity_id ≡ d.activity_id) ↔ (j ≡ k))
      × (a.activity_id ≢ d.activity_id)
activity_ids_distinct j k a b c d ha hb hc hd = (
  (
    λ e. padded-injective 4 j k (cc (page_id j ha, page_id k hb)),
    λ e. same_id a b (ap durable_activity_options e) ha hb,
  ),
  (
    λ e. padded-injective 4 j k (cc (finalize_id j hc, finalize_id k hd)),
    λ e. same_id c d (ap finalization_activity_options e) hc hd,
  ),
  λ e. letters (
      sym (page_id_letter j)
      ∙ ap (λ (s : Str). get_elem? s 4) (sym (page_id j ha) ∙ e ∙ finalize_id k hd)
      ∙ finalize_id_letter k),
)
  where
    letters : ◌≡◌ {A = Option ℕ} (some 114) (some 102) → ⊥
    letters h = ground (arith, h)

-- A page failure is never tried again exactly if it is a missing workflow, a bad configuration or a
-- domain error; it waits 65 to 75 seconds exactly if the provider's quota is exhausted, and else is
-- tried again by the policy.
pub page_failure_advice :
    {S : Type 0} (clock : Option ℕ) (e : PageRunnerError S)
    → (into_activity_error clock (from_ref e) ≡ never)
        × ((e ≡ not_found) ⊎ (e ≡ invalid_configuration) ⊎ ((x : Error) × (e ≡ domain x)))
      ⊎ ((n : ℕ) × (into_activity_error clock (from_ref e) ≡ after_seconds n)
          × (65 ≤ n)
          × (n ≤ 75)
          × (e ≡ rate_limited))
      ⊎ (into_activity_error clock (from_ref e) ≡ by_policy)
        × ((e ≡ retryable_conflict) ⊎ ((x : S) × (e ≡ store x)))
unfolding into_activity_error from_ref
page_failure_advice clock invalid_configuration = inl (refl, inr (inl refl))
page_failure_advice clock not_found = inl (refl, inl refl)
page_failure_advice clock (domain x) = inl (refl, inr (inr (x, refl)))
page_failure_advice none rate_limited = inr (inl (65, refl, omega arith, omega arith, refl))
page_failure_advice (some n) rate_limited =
    inr (inl (65 + n % 11, refl, omega arith, omega arith, refl))
page_failure_advice clock retryable_conflict = inr (inr (refl, inl refl))
page_failure_advice clock (store x) = inr (inr (refl, inr (x, refl)))
