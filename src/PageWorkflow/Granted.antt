-- ===== src/PageWorkflow/Granted.antt =====
-- `claim_ready` of crates/ocr-domain/src/page_workflow.rs: what a worker gets, and what is left of the
-- workflow.
use document_intelligence.Base.{
  ℕ, min, ◌-◌, ◌≤◌, ◌≡◌, refl, ◌⊎◌, true, false, List, [], arith, length, All, All-imp, Result, ok,
  err, if-holds,
}
use document_intelligence.Domain.Errors.{Error, invalid_page_workflow}
use document_intelligence.PageWorkflow.{
  PageWorkflow, PageProgress, PageTask, claim_from, claim_ready, active_progress,
}
use document_intelligence.PageWorkflow.Active.{active_progress_iff}
use document_intelligence.PageWorkflow.Invariant.{IsValid}
use document_intelligence.PageWorkflow.Claims.{
  unsettled, IsHandedOut, IsAscending, Evolves, Evolves-refl, claim_from-Claimed,
}

-- What a worker gets from a valid workflow.
pub record Granted (w w' : PageWorkflow) (limit : ℕ) (ts : List PageTask) : Type 0 where
  pub counted : length ts ≡ min limit (unsettled w.pages)
  pub active : All (λ t. active_progress w' t ≡ ok (t.page - 1)) ts
  pub ascending : IsAscending 0 ts
  pub evolves : Evolves w.pages w'.pages
  pub same_job : w'.job_id ≡ w.job_id
  pub same_attempts : w'.max_attempts ≡ w.max_attempts
  pub same_cancelled : w'.cancelled ≡ w.cancelled

claim_ready_live :
    (w : PageWorkflow) (limit : ℕ)
    → w.cancelled ≡ false
    → 1 ≤ limit
    → limit ≤ 64
    → claim_ready w limit ≡ (
      record w { pages = (claim_from w.job_id limit 0 w.pages).0 },
      (claim_from w.job_id limit 0 w.pages).1,
    )
unfolding claim_ready
claim_ready_live w limit live low high = ground arith

handed_out-active :
    (w : PageWorkflow) (ps : List PageProgress) (t : PageTask)
    → w.cancelled ≡ false
    → IsHandedOut w.job_id 0 ps t
    → active_progress (record w { pages = ps }) t ≡ ok (t.page - 1)
handed_out-active w ps t live h =
    let place : t.page - 1 ≡ h.offset = omega (arith, h.numbered) in
    rw place (
      (active_progress_iff (record w { pages = ps }) t h.offset).1 (record {
        live = live;
        keyed = h.keyed;
        numbered = omega (arith, h.numbered);
        found = h.found;
      }))

-- A worker that asks a valid, uncancelled workflow for 1 to 64 tasks gets as many, or one for each
-- unsettled page if these are fewer; in the order of the pages, no page twice. Each task may be
-- reported on at once, and each page is as it was or runs the attempt under which it was claimed.
pub claim_ready-Granted :
    (w : PageWorkflow) (limit : ℕ)
    → IsValid w
    → w.cancelled ≡ false
    → 1 ≤ limit
    → limit ≤ 64
    → (ts : List PageTask) × ((claim_ready w limit).1 ≡ ok ts)
      × Granted w (claim_ready w limit).0 limit ts
claim_ready-Granted w limit v live low high =
    let ps = (claim_from w.job_id limit 0 w.pages).0 in
    let c = claim_from-Claimed w.job_id limit 0 w.pages (omega (arith, v.few_pages)) in
    rw (claim_ready_live w limit live low high) (
      c.tasks,
      c.returned,
      record {
        counted = c.counted;
        active = All-imp _ _ (λ t h. handed_out-active w ps t live h) c.tasks c.handed_out;
        ascending = c.ascending;
        evolves = c.evolves;
        same_job = refl;
        same_attempts = refl;
        same_cancelled = refl;
      },
    )

-- A cancelled workflow hands out nothing and stays as it is.
pub claim_ready_cancelled :
    (w : PageWorkflow) (limit : ℕ)
    → w.cancelled ≡ true
    → ((claim_ready w limit).0 ≡ w)
      × (((claim_ready w limit).1 ≡ ok []) ⊎ ((claim_ready w limit).1 ≡ err invalid_page_workflow))
unfolding claim_ready
claim_ready_cancelled w limit h = ground arith

-- Whatever the limit, a claim leaves each page as it was or running.
pub claim_ready-Evolves :
    (w : PageWorkflow) (limit : ℕ)
    → IsValid w
    → Evolves w.pages (claim_ready w limit).0.pages
      × ((claim_ready w limit).0.max_attempts ≡ w.max_attempts)
unfolding claim_ready
claim_ready-Evolves w limit v = if-holds Good _ _ _ same (
    if-holds Good w.cancelled _ _ same
      ((claim_from-Claimed w.job_id limit 0 w.pages (omega (arith, v.few_pages))).evolves, refl))
  where
    Good : PageWorkflow × Result Error (List PageTask) → Type 0
    Good c = Evolves w.pages c.0.pages × (c.0.max_attempts ≡ w.max_attempts)

    same : Evolves w.pages w.pages × (w.max_attempts ≡ w.max_attempts)
    same = (Evolves-refl w.pages, refl)
