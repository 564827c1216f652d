-- ===== src/PageWorkflow/Keys.antt =====
-- The activity keys: a key names its job, page and attempt.
use document_intelligence.Base.{ℕ, ◌≡◌, refl, Bool, true, not, [], ◌∷◌, ◌++◌, arith, all, ◌==◌, ok}
use document_intelligence.Base.Text.{Str, codes, is_ascii_digit}
use document_intelligence.Base.Text.Decimal.{decimal, decimal-digits, decimal-injective}
use document_intelligence.Domain.Ids.{JobId, new_job_id, id_byte}
use document_intelligence.Domain.Ids.Laws.{new_job_id-chars}
use document_intelligence.PageWorkflow.{activity_key}

abbrev not_dash : ℕ → Bool
not_dash c = not (c == b'-')

-- Two texts without a dash, each followed by one, are equal if the whole is.
split_at_dash :
    (s t u v : Str)
    → all not_dash s ≡ true
    → all not_dash t ≡ true
    → s ++ b'-' ∷ u ≡ t ++ b'-' ∷ v
    → (s ≡ t) × (u ≡ v)
split_at_dash [] [] u v h k e = (refl, cc)
split_at_dash [] (c ∷ t) u v h k e = absurd (ground arith)
split_at_dash (c ∷ s) [] u v h k e = absurd (ground arith)
split_at_dash (c ∷ s) (d ∷ t) u v h k e =
    let (p, q) = split_at_dash s t u v (ground arith) (ground arith) (cc) in (cc, q)

digits-not_dash : (s : Str) → all is_ascii_digit s ≡ true → all not_dash s ≡ true
digits-not_dash [] h = refl
digits-not_dash (c ∷ s) h = ground (arith, digits-not_dash s)

ids-not_dash : (s : Str) → all id_byte s ≡ true → all not_dash s ≡ true
ids-not_dash [] h = refl
ids-not_dash (c ∷ s) h = ground (arith, ids-not_dash s)

decimal-not_dash : (n : ℕ) → all not_dash (decimal n) ≡ true
decimal-not_dash n = digits-not_dash (decimal n) (decimal-digits n)

-- The key of a page and an attempt of an accepted job id determines all three: across all jobs, no
-- two tasks share a key.
pub activity_key-injective :
    (u v : Str) (i j : JobId) (p q a b : ℕ)
    → new_job_id u ≡ ok i
    → new_job_id v ≡ ok j
    → activity_key i p a ≡ activity_key j q b
    → (i.text ≡ j.text) × (p ≡ q) × (a ≡ b)
unfolding activity_key
activity_key-injective u v i j p q a b hi hj e =
    let rest = λ (n m : ℕ). codes "page-" ++ (decimal n ++ (codes "-attempt-" ++ decimal m)) in
    let job =
      split_at_dash i.text j.text (rest p a) (rest q b)
        (ids-not_dash i.text (new_job_id-chars u i hi))
        (ids-not_dash j.text (new_job_id-chars v j hj)) (cc) in
    let page =
      split_at_dash (decimal p) (decimal q) (codes "attempt-" ++ decimal a)
        (codes "attempt-" ++ decimal b) (decimal-not_dash p) (decimal-not_dash q) (cc job.1) in
    let attempt : decimal a ≡ decimal b = cc page.1 in
    (job.0, decimal-injective p q page.0, decimal-injective a b attempt)
