-- ===== src/PageWorkflow/Runs.antt =====
-- Sequences of operations on a page workflow of crates/ocr-domain/src/page_workflow.rs, and the
-- invariant along them.
use mathlib.Core.Path.{subst}
use document_intelligence.Base.{
  All-get, ==_iff, if-holds, replicate, saturating_add, u8_max, ℕ, zero, suc, ◌+◌, ◌≤◌, ◌<◌, ◌≡◌,
  refl, inl, inr, Bool, true, false, List, [], ◌∷◌, some, arith, length, set, All, All-set,
  All-replicate, length-set, length-replicate, Result, ok, err, Bool-cases, if◌then◌else◌, ltb,
  ◌==◌, within, u32_max,
}
use document_intelligence.Domain.Errors.{Error, invalid_page_workflow}
use document_intelligence.Domain.Ids.{JobId}
use document_intelligence.PageWorkflow.Active.{active_progress_iff}
use document_intelligence.PageWorkflow.{
  PageWorkflow, PageProgress, PageTask, pending, running, succeeded, exhausted, permanently_failed,
  try_from, new, claimed_attempt, Claim, claim_page, claim_from, claim_ready, active_progress,
  write, record_success, record_retryable_failure, record_permanent_failure, request_cancellation,
  maximum_page_count, maximum_page_attempts, after_failure,
}
use document_intelligence.PageWorkflow.Invariant.{IsWellFormed, IsValid, IsValid-try_from}

-- What a caller may do to a workflow.
pub data Operation : Type 0 where
  claim : ℕ → Operation
  succeed fail_retryable fail_permanent : PageTask → Operation
  cancel : Operation

-- The workflow after an operation, and after many; a refused one leaves what the code leaves.
unfoldable pub apply : PageWorkflow → Operation → PageWorkflow
apply w (claim limit) = (claim_ready w limit).0
apply w (succeed t) = (record_success w t).0
apply w (fail_retryable t) = (record_retryable_failure w t).0
apply w (fail_permanent t) = (record_permanent_failure w t).0
apply w cancel = request_cancellation w

unfoldable pub run : PageWorkflow → List Operation → PageWorkflow
run w [] = w
run w (o ∷ os) = run (apply w o) os

pub new_shape :
    (j : JobId) (count attempts : ℕ) (w : PageWorkflow)
    → new j count attempts ≡ ok w
    → (within 1 maximum_page_count count ≡ true)
      × (within 1 maximum_page_attempts attempts ≡ true)
      × (record {
        job_id = j;
        max_attempts = attempts;
        pages = replicate count (pending 0);
        cancelled = false;
      }
          ≡ w)
unfolding new
new_shape j count attempts w h = ground arith

-- A workflow that was created is valid.
pub new-IsValid :
    (j : JobId) (count attempts : ℕ) (w : PageWorkflow) → new j count attempts ≡ ok w → IsValid w
new-IsValid j count attempts w h =
    let (few, low, e) = new_shape j count attempts w h in
    subst IsValid e (record {
      some_attempts = ground arith;
      few_attempts = ground arith;
      some_pages = rw (length-replicate count (pending 0)) (ground arith);
      few_pages = rw (length-replicate count (pending 0)) (ground arith);
      well_formed = All-replicate (IsWellFormed attempts) count (pending 0) (ground arith);
    })

claim_from-length :
    (j : JobId) (left index : ℕ) (ps : List PageProgress)
    → length (claim_from j left index ps).0 ≡ length ps
unfolding claim_from
claim_from-length j left index [] = refl
claim_from-length j zero index (p ∷ ps) = refl
claim_from-length j (suc left) index (p ∷ ps) =
    ground (
      arith,
      claim_from-length j left (index + 1) ps,
      claim_from-length j (suc left) (index + 1) ps,
    )

claimed-well_formed :
    (m : ℕ) (p : PageProgress) (a : ℕ)
    → m ≤ maximum_page_attempts
    → IsWellFormed m p
    → claimed_attempt p ≡ some a
    → (0 < a) × (a ≤ m)
claimed-well_formed m p a l h e = ground arith

-- The two ways in which the loop goes on after it has handed out a page.
All-claim_page :
    (P : PageProgress → Type 0) (b : Bool) (p : PageProgress) (t : PageTask)
    (ps : List PageProgress) (c : Claim)
    → P p
    → All P ps
    → All P c.0
    → All P (if b then (p ∷ ps, err invalid_page_workflow) else claim_page p t c).0
All-claim_page P true p t ps c h k l = (h, k)
All-claim_page P false p t ps (qs, ok ts) h k l = (h, l)
All-claim_page P false p t ps (qs, err e) h k l = (h, l)

claim_from-IsWellFormed :
    (m : ℕ) (j : JobId) (left index : ℕ) (ps : List PageProgress)
    → m ≤ maximum_page_attempts
    → All (IsWellFormed m) ps
    → All (IsWellFormed m) (claim_from j left index ps).0
unfolding claim_from
claim_from-IsWellFormed m j left index [] l h = tt
claim_from-IsWellFormed m j zero index (p ∷ ps) l h = h
claim_from-IsWellFormed m j (suc left) index (running a ∷ ps) l h =
    All-claim_page (IsWellFormed m) (ltb u32_max (index + 1)) (running a) _ ps _ h.0 h.1
      (claim_from-IsWellFormed m j left (index + 1) ps l h.1)
claim_from-IsWellFormed m j (suc left) index (pending f ∷ ps) l h =
    All-claim_page (IsWellFormed m) (ltb u32_max (index + 1)) (running (saturating_add u8_max f 1))
      _ ps _ (claimed-well_formed m (pending f) _ l h.0 refl) h.1
      (claim_from-IsWellFormed m j left (index + 1) ps l h.1)
claim_from-IsWellFormed m j (suc left) index (succeeded a ∷ ps) l h =
    (h.0, claim_from-IsWellFormed m j (suc left) (index + 1) ps l h.1)
claim_from-IsWellFormed m j (suc left) index (exhausted a ∷ ps) l h =
    (h.0, claim_from-IsWellFormed m j (suc left) (index + 1) ps l h.1)
claim_from-IsWellFormed m j (suc left) index (permanently_failed a ∷ ps) l h =
    (h.0, claim_from-IsWellFormed m j (suc left) (index + 1) ps l h.1)

-- A workflow stays valid if its pages change to as many well-formed ones.
with_pages-IsValid :
    (w : PageWorkflow) (ps : List PageProgress)
    → IsValid w
    → length ps ≡ length w.pages
    → All (IsWellFormed w.max_attempts) ps
    → IsValid (record w { pages = ps })
with_pages-IsValid w ps v e h = record {
  some_attempts = v.some_attempts;
  few_attempts = v.few_attempts;
  some_pages = rw e v.some_pages;
  few_pages = rw e v.few_pages;
  well_formed = h;
}

claim_ready-IsValid : (w : PageWorkflow) (limit : ℕ) → IsValid w → IsValid (claim_ready w limit).0
unfolding claim_ready
claim_ready-IsValid w limit v =
    let claimed = claim_from w.job_id limit 0 w.pages in
    let more = with_pages-IsValid w claimed.0 v (claim_from-length w.job_id limit 0 w.pages) (
      claim_from-IsWellFormed w.max_attempts w.job_id limit 0 w.pages v.few_attempts
        v.well_formed) in
    if-holds (λ (c : PageWorkflow × Result Error (List PageTask)). IsValid c.0) _ _ _ v
      (if-holds (λ (c : PageWorkflow × Result Error (List PageTask)). IsValid c.0) w.cancelled _ _ v
        more)

-- A report changes one page, to a well-formed one, or nothing.
write-IsValid :
    (w : PageWorkflow) (p : PageProgress) (r : Result Error ℕ)
    → IsValid w
    → ((i : ℕ) → r ≡ ok i → IsWellFormed w.max_attempts p)
    → IsValid (write w p r).0
write-IsValid w p (ok i) v h =
    with_pages-IsValid w (set w.pages i p) v (length-set w.pages i p)
      (All-set (IsWellFormed w.max_attempts) w.pages i p v.well_formed (h i refl))
write-IsValid w p (err e) v h = v

-- The attempt of an active task is one that its page may make.
pub active_attempt :
    (w : PageWorkflow) (t : PageTask) (i : ℕ)
    → IsValid w
    → active_progress w t ≡ ok i
    → (0 < t.attempt) × (t.attempt ≤ w.max_attempts)
active_attempt w t i v h =
    All-get (IsWellFormed w.max_attempts) w.pages i (running t.attempt) v.well_formed
      ((active_progress_iff w t i).0 h).found

after_failure-IsWellFormed : (m a : ℕ) → a ≤ m → IsWellFormed m (after_failure m a)
after_failure-IsWellFormed m a h = elim (Bool-cases (a == m)) [
  | inl e ↦ rw e ((==_iff a m).0 e)
  | inr e ↦ rw e (ground arith)
]

-- Every operation, whatever its arguments and also where it is refused, keeps a valid workflow valid.
pub apply-IsValid : (w : PageWorkflow) (o : Operation) → IsValid w → IsValid (apply w o)
unfolding apply record_success record_retryable_failure record_permanent_failure
    request_cancellation
apply-IsValid w (claim limit) v = claim_ready-IsValid w limit v
apply-IsValid w (succeed t) v =
    write-IsValid w (succeeded t.attempt) (active_progress w t) v (λ i h. active_attempt w t i v h)
apply-IsValid w (fail_retryable t) v =
    write-IsValid w (after_failure w.max_attempts t.attempt) (active_progress w t) v
      (λ i h. after_failure-IsWellFormed w.max_attempts t.attempt (active_attempt w t i v h).1)
apply-IsValid w (fail_permanent t) v =
    write-IsValid w (permanently_failed t.attempt) (active_progress w t) v
      (λ i h. active_attempt w t i v h)
apply-IsValid w cancel v = record {
  some_attempts = v.some_attempts;
  few_attempts = v.few_attempts;
  some_pages = v.some_pages;
  few_pages = v.few_pages;
  well_formed = v.well_formed;
}

run-IsValid : (w : PageWorkflow) (os : List Operation) → IsValid w → IsValid (run w os)
unfolding run
run-IsValid w [] v = v
run-IsValid w (o ∷ os) v = run-IsValid (apply w o) os (apply-IsValid w o v)

-- Whatever was done to a workflow since it was created, its stored form is read back as it is.
pub try_from-run :
    (j : JobId) (count attempts : ℕ) (w : PageWorkflow) (os : List Operation)
    → new j count attempts ≡ ok w
    → try_from (run w os) ≡ ok (run w os)
try_from-run j count attempts w os h =
    IsValid-try_from (run w os) (run-IsValid w os (new-IsValid j count attempts w h))
