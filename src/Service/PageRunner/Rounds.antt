-- ===== src/Service/PageRunner/Rounds.antt =====
-- The tasks of one claim in `run_once` of crates/ocr-service/src/page_runner.rs, and what is recorded
-- of them.
use mathlib.Core.List.{Permᴰ}
use document_intelligence.Base.{
  ℕ, ◌<◌, ◌≤◌, ◌≡◌, refl, sym, ap, subst, ◌∙◌, false, List, [], ◌∷◌, map, arith, All, All-imp, ok,
  ok_injective, occurrences, occurrences-Permᴰ, IsIncreasing, increasing-IsDistinct, All-Permᴰ,
}
use document_intelligence.PageWorkflow.{PageWorkflow, PageTask, claim_ready}
use document_intelligence.PageWorkflow.Invariant.{IsValid}
use document_intelligence.PageWorkflow.Claims.{IsAscending, IsAscending-weaken}
use document_intelligence.PageWorkflow.Granted.{claim_ready-Granted}
use document_intelligence.Service.PageRunner.{record_outcomes}
use document_intelligence.Service.PageRunner.Outcomes.{
  Outcome, HasActive, place, IsRecorded, artifacts_of, any_limited, record_outcomes-IsRecorded,
}

ascending-above : (low : ℕ) (ts : List PageTask) → IsAscending low ts → All (λ u. low < u.page) ts
ascending-above low [] h = tt
ascending-above low (t ∷ ts) h =
    (h.0, ascending-above low ts (IsAscending-weaken low t.page ts (omega (arith, h.0)) h.1))

ascending-IsIncreasing : (low : ℕ) (ts : List PageTask) → IsAscending low ts → IsIncreasing place ts
ascending-IsIncreasing low [] h = tt
ascending-IsIncreasing low (t ∷ ts) h = (
  All-imp (λ u. t.page < u.page) (λ u. place t < place u) (λ u k. omega (arith, h.0, k)) ts
      (ascending-above t.page ts h.1),
  ascending-IsIncreasing t.page ts h.1,
)

module _ {A : Type 0} where
  abbrev pub tasks_of : List (Outcome A) → List PageTask
  tasks_of os = map (λ o. o.0) os

  occurrences-tasks_of :
      (k : ℕ) (os : List (Outcome A))
      → occurrences place k (tasks_of os) ≡ occurrences (λ o. place o.0) k os
  occurrences-tasks_of k [] = refl
  occurrences-tasks_of k (o ∷ os) = omega (arith, occurrences-tasks_of k os)

  All-tasks_of :
      (P : PageTask → Type 0) (os : List (Outcome A)) → All P (tasks_of os) → All (λ o. P o.0) os
  All-tasks_of P [] h = tt
  All-tasks_of P (o ∷ os) h = (h.0, All-tasks_of P os h.1)

  -- The reports of one round are all accepted: for a valid, uncancelled workflow, whatever becomes
  -- of the tasks of a claim and in whichever order, the loop ends without an error, each page of a
  -- task has the progress that its outcome reports and no other page changes, the artifacts are
  -- those of the successes, and the flag says whether a page was rate limited that may be tried
  -- again.
  pub record_claimed :
      (w : PageWorkflow) (limit : ℕ) (ts : List PageTask) (os : List (Outcome A))
      → IsValid w
      → w.cancelled ≡ false
      → 1 ≤ limit
      → limit ≤ 64
      → (claim_ready w limit).1 ≡ ok ts
      → Permᴰ ts (tasks_of os)
      → (w' : PageWorkflow) × (record_outcomes (claim_ready w limit).0 [] false os
          ≡ ok (w', artifacts_of os, any_limited w.max_attempts os))
        × IsRecorded (claim_ready w limit).0 w' os
  record_claimed w limit ts os v live low high claimed p =
      let (us, returned, granted) = claim_ready-Granted w limit v live low high in
      let same : us ≡ ts = ok_injective us ts (sym returned ∙ claimed) in
      let w₁ = (claim_ready w limit).0 in
      let q : Permᴰ us (tasks_of os) = subst (λ l. Permᴰ l (tasks_of os)) (sym same) p in
      let active = All-tasks_of (HasActive w₁) os (All-Permᴰ (HasActive w₁) q granted.active) in
      let once = increasing-IsDistinct place us (ascending-IsIncreasing 0 us granted.ascending) in
      let (w', e, r) =
        record_outcomes-IsRecorded w₁ [] false os active
          (λ k. omega (arith, once k, occurrences-Permᴰ place k q, occurrences-tasks_of k os)) in
      (w', e ∙ ap (λ m. ok (w', artifacts_of os, any_limited m os)) granted.same_attempts, r)
