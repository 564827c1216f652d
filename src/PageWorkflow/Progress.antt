-- ===== src/PageWorkflow/Progress.antt =====
-- How far a workflow is from its end: its status, what is left to claim, and how many reports it
-- can still take.
use document_intelligence.Base.{
  ℕ, zero, suc, min, ◌+◌, ◌-◌, ◌*◌, ◌≤◌, ◌<◌, ◌≡◌, refl, sym, ap, ◌∙◌, ◌↔◌, ◌⊎◌, inl, inr, true,
  false, List, [], ◌∷◌, some, arith, length, get_elem?, set, replicate, All, all, Result, ok,
  ok_injective, Bool-cases, if◌then◌else◌, is_ok,
}
use mathlib.Core.Option.{some-injective}
use native.Mathlib.Nat.{le_trans, le_of_eq}
use document_intelligence.Domain.Ids.{JobId}
use document_intelligence.PageWorkflow.{
  PageWorkflow, PageProgress, PageTask, PageWorkflowStatus, pending, running, claim_ready,
  claimed_attempt, request_cancellation, status, is_succeeded, is_settled, new,
  maximum_page_attempts,
}
use document_intelligence.PageWorkflow.Active.{active_progress_iff, active_outcomes}
use document_intelligence.PageWorkflow.Invariant.{IsValid, IsWellFormed}
use document_intelligence.PageWorkflow.Runs.{
  active_attempt, apply-IsValid, new-IsValid, new_shape, Operation, claim, succeed, fail_retryable,
  fail_permanent, cancel, apply,
}
use document_intelligence.PageWorkflow.Claims.{unsettled, Evolves}
use document_intelligence.PageWorkflow.Granted.{
  claim_ready-Granted, claim_ready_cancelled, claim_ready-Evolves,
}
use document_intelligence.PageWorkflow.Records.{
  Report, success, retryable, permanent, record_report, record_report-write, reported,
}

unsettled-of_settled : (ps : List PageProgress) → all is_settled ps ≡ true → unsettled ps ≡ 0
unfolding unsettled
unsettled-of_settled [] h = refl
unsettled-of_settled (p ∷ ps) h = ground (arith, unsettled-of_settled ps)

settled-of_unsettled : (ps : List PageProgress) → unsettled ps ≡ 0 → all is_settled ps ≡ true
unfolding unsettled
settled-of_unsettled [] h = refl
settled-of_unsettled (p ∷ ps) h = ground (arith, settled-of_unsettled ps)

settled-of_succeeded :
    (ps : List PageProgress) → all is_succeeded ps ≡ true → all is_settled ps ≡ true
settled-of_succeeded [] h = refl
settled-of_succeeded (p ∷ ps) h = ground (arith, settled-of_succeeded ps)

-- A workflow is running exactly while it is not cancelled and some page is not settled.
pub status-running :
    (w : PageWorkflow)
    → (status w ≡ PageWorkflowStatus.running) ↔ ((w.cancelled ≡ false) × (0 < unsettled w.pages))
unfolding status
status-running w = (
  λ h. (ground arith, ground (arith, settled-of_unsettled w.pages)),
  λ h. ground (arith, unsettled-of_settled w.pages, settled-of_succeeded w.pages),
)

-- The reports that a page can still take.
weight : ℕ → PageProgress → ℕ
weight m (pending failures) = m - failures
weight m (running attempt) = suc m - attempt
weight m _ = 0

pub remaining : ℕ → List PageProgress → ℕ
unfolding weight
remaining m [] = 0
remaining m (p ∷ ps) = weight m p + remaining m ps

weight-claimed :
    (m : ℕ) (p : PageProgress) (a : ℕ)
    → m ≤ maximum_page_attempts
    → IsWellFormed m p
    → claimed_attempt p ≡ some a
    → weight m (running a) ≡ weight m p
unfolding weight
weight-claimed m p a l h e = ground arith

weight-reported :
    (r : Report) (m a : ℕ) → a ≤ m → weight m (reported r m a) + 1 ≤ weight m (running a)
unfolding weight
weight-reported success m a h = omega arith
weight-reported retryable m a h = ground arith
weight-reported permanent m a h = omega arith

remaining-set :
    (m : ℕ) (ps : List PageProgress) (i : ℕ) (p q : PageProgress)
    → get_elem? ps i ≡ some p
    → weight m q + 1 ≤ weight m p
    → remaining m (set ps i q) + 1 ≤ remaining m ps
unfolding remaining
remaining-set m [] i p q e h = cc
remaining-set m (x ∷ ps) zero p q e h =
    let same : x ≡ p = some-injective _ _ e in omega (arith, ap (weight m) same)
remaining-set m (x ∷ ps) (suc i) p q e h = omega (arith, remaining-set m ps i p q e h)

remaining-Evolves :
    (m : ℕ) (ps qs : List PageProgress)
    → m ≤ maximum_page_attempts
    → All (IsWellFormed m) ps
    → Evolves ps qs
    → remaining m qs ≡ remaining m ps
unfolding remaining
remaining-Evolves m [] [] l h e = refl
remaining-Evolves m [] (q ∷ qs) l h e = absurd e
remaining-Evolves m (p ∷ ps) [] l h e = absurd e
remaining-Evolves m (p ∷ ps) (q ∷ qs) l h e = elim e.0 [
  | inl same ↦ omega (arith, ap (weight m) same, remaining-Evolves m ps qs l h.1 e.1)
  | inr (a, claimed, same) ↦ omega (
    arith,
    ap (weight m) same,
    weight-claimed m p a l h.0 claimed,
    remaining-Evolves m ps qs l h.1 e.1,
  )
]

-- 1 for a report that is accepted.
pub accepted : PageWorkflow → Operation → ℕ
accepted w (succeed t) = if is_ok (record_report success w t).1 then 1 else 0
accepted w (fail_retryable t) = if is_ok (record_report retryable w t).1 then 1 else 0
accepted w (fail_permanent t) = if is_ok (record_report permanent w t).1 then 1 else 0
accepted w _ = 0

pub accepted_reports : PageWorkflow → List Operation → ℕ
unfolding accepted
accepted_reports w [] = 0
accepted_reports w (o ∷ os) = accepted w o + accepted_reports (apply w o) os

-- A report that is accepted uses up one of the remaining ones.
report-remaining :
    (r : Report) (w : PageWorkflow) (t : PageTask)
    → IsValid w
    → ((if is_ok (record_report r w t).1 then 1 else 0)
          + remaining (record_report r w t).0.max_attempts (record_report r w t).0.pages
        ≤ remaining w.max_attempts w.pages)
report-remaining r w t v = rw (record_report-write r w t) (elim (active_outcomes w t) [
  | inr e ↦ rw e (omega arith)
  | inl e ↦ rw e (
      omega (
        arith,
        remaining-set w.max_attempts w.pages (t.page - 1) (running t.attempt)
            (reported r w.max_attempts t.attempt) ((active_progress_iff w t (t.page - 1)).0 e).found
            (weight-reported r w.max_attempts t.attempt (active_attempt w t (t.page - 1) v e).1),
      ))
])

apply-remaining :
    (w : PageWorkflow) (o : Operation)
    → IsValid w
    → accepted w o + remaining (apply w o).max_attempts (apply w o).pages
      ≤ remaining w.max_attempts w.pages
unfolding accepted apply
apply-remaining w (claim limit) v =
    let (e, same) = claim_ready-Evolves w limit v in
    rw same (
      omega (
        arith,
        remaining-Evolves w.max_attempts w.pages (claim_ready w limit).0.pages v.few_attempts
            v.well_formed e,
      ))
apply-remaining w (succeed t) v = unfold record_report in report-remaining success w t v
apply-remaining w (fail_retryable t) v = unfold record_report in report-remaining retryable w t v
apply-remaining w (fail_permanent t) v = unfold record_report in report-remaining permanent w t v
apply-remaining w cancel v = unfold request_cancellation in omega arith

run-remaining :
    (w : PageWorkflow) (os : List Operation)
    → IsValid w
    → accepted_reports w os ≤ remaining w.max_attempts w.pages
unfolding accepted_reports
run-remaining w [] v = omega arith
run-remaining w (o ∷ os) v =
    omega (arith, apply-remaining w o v, run-remaining (apply w o) os (apply-IsValid w o v))

remaining-new : (m n : ℕ) → remaining m (replicate n (pending 0)) ≡ n * m
unfolding remaining
remaining-new m zero = omega arith
remaining-new m (suc n) = grind (arith, remaining-new m n)

-- Over the whole life of a workflow, whatever is called in whatever order, at most as many reports
-- are accepted as it has pages times attempts.
pub accepted_reports_bounded :
    (j : JobId) (count attempts : ℕ) (w : PageWorkflow) (os : List Operation)
    → new j count attempts ≡ ok w
    → accepted_reports w os ≤ count * attempts
accepted_reports_bounded j count attempts w os h =
    let (_, _, e) = new_shape j count attempts w h in
    rw (← remaining-new attempts count) (
      le_trans (run-remaining w os (new-IsValid j count attempts w h))
        (le_of_eq (sym (ap (λ (x : PageWorkflow). remaining x.max_attempts x.pages) e))))

same_tasks :
    {E : Type 0} {r : Result E (List PageTask)} (ts us : List PageTask)
    → r ≡ ok ts
    → r ≡ ok us
    → length ts ≡ length us
same_tasks ts us h k = ap length (ok_injective ts us (sym h ∙ k))

length-claimed :
    (w : PageWorkflow) (limit : ℕ) (ts : List PageTask)
    → IsValid w
    → 1 ≤ limit
    → limit ≤ 64
    → (claim_ready w limit).1 ≡ ok ts
    → ((w.cancelled ≡ true) × (length ts ≡ 0))
      ⊎ ((w.cancelled ≡ false) × (length ts ≡ min limit (unsettled w.pages)))
length-claimed w limit ts v low high h = elim (Bool-cases w.cancelled) [
  | inl stop ↦ elim (claim_ready_cancelled w limit stop).1 [
    | inl e ↦ inl (stop, same_tasks ts [] h e)
    | inr e ↦ absurd (cc)
  ]
  | inr go ↦
      (let (us, e, granted) = claim_ready-Granted w limit v go low high in
        inr (go, same_tasks ts us h e ∙ granted.counted))
]

answered :
    (w : PageWorkflow) (limit : ℕ)
    → IsValid w
    → 1 ≤ limit
    → limit ≤ 64
    → (ts : List PageTask) × ((claim_ready w limit).1 ≡ ok ts)
unfolding claim_ready
answered w limit v low high = elim (Bool-cases w.cancelled) [
  | inl stop ↦ ([], ground (arith, stop))
  | inr go ↦ (let (ts, e, granted) = claim_ready-Granted w limit v go low high in (ts, e))
]

-- A claim of 1 to 64 tasks on a valid workflow is answered, and it gets a task exactly while the
-- status is Running.
pub claim_ready-running :
    (w : PageWorkflow) (limit : ℕ)
    → IsValid w
    → 1 ≤ limit
    → limit ≤ 64
    → (ts : List PageTask) × ((claim_ready w limit).1 ≡ ok ts)
      × ((status w ≡ PageWorkflowStatus.running) ↔ (0 < length ts))
claim_ready-running w limit v low high =
    let (ts, h) = answered w limit v low high in
    (
      ts,
      h,
      (
        λ s. ground (arith, length-claimed w limit ts v low high h, (status-running w).0 s),
        λ some_task. (status-running w).1 (ground (arith, length-claimed w limit ts v low high h)),
      ),
    )
