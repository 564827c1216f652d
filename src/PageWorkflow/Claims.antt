-- ===== src/PageWorkflow/Claims.antt =====
-- The loop of `claim_ready` in crates/ocr-domain/src/page_workflow.rs: which tasks it collects, and what
-- is left of the pages.
use document_intelligence.Base.{
  ℕ, zero, suc, min, ◌+◌, ◌≤◌, ◌<◌, ◌≡◌, refl, ◌⊎◌, inl, inr, true, false, List, [], ◌∷◌, some,
  arith, length, get_elem?, All, All-imp, ok, err, if◌then◌else◌, ltb, u32_max,
}
use document_intelligence.Domain.Errors.{invalid_page_workflow}
use document_intelligence.Domain.Ids.{JobId}
use document_intelligence.PageWorkflow.{
  PageProgress, PageTask, pending, running, succeeded, exhausted, permanently_failed,
  claimed_attempt, Claim, keep_page, claim_page, task, claim_from, activity_key, is_settled,
}

-- How many pages are not settled.
unfoldable pub unsettled : List PageProgress → ℕ
unsettled [] = 0
unsettled (p ∷ ps) = (if is_settled p then 0 else 1) + unsettled ps

-- The task is for the page at some place of `ps`, whose first page has the number index + 1, and
-- this page runs the task's attempt.
pub record IsHandedOut (j : JobId) (index : ℕ) (ps : List PageProgress) (t : PageTask)
    : Type 0 where
  pub offset : ℕ
  pub numbered : t.page ≡ suc (index + offset)
  pub keyed : t.activity_key ≡ activity_key j t.page t.attempt
  pub found : get_elem? ps offset ≡ some (running t.attempt)

-- Page numbers rise strictly, from above `low`.
abbrev pub IsAscending : ℕ → List PageTask → Type 0
IsAscending low [] = Unit
IsAscending low (t ∷ ts) = (low < t.page) × IsAscending t.page ts

-- Each page is as it was, or runs the attempt under which it was claimed.
abbrev pub Evolves : List PageProgress → List PageProgress → Type 0
Evolves [] [] = Unit
Evolves (p ∷ ps) (q ∷ qs) =
    ((q ≡ p) ⊎ ((a : ℕ) × (claimed_attempt p ≡ some a) × (q ≡ running a))) × Evolves ps qs
Evolves _ _ = ⊥

pub record Claimed (j : JobId) (left index : ℕ) (ps : List PageProgress) (c : Claim) : Type 0 where
  pub tasks : List PageTask
  pub returned : c.1 ≡ ok tasks
  pub counted : length tasks ≡ min left (unsettled ps)
  pub handed_out : All (IsHandedOut j index c.0) tasks
  pub ascending : IsAscending index tasks
  pub evolves : Evolves ps c.0

pub Evolves-refl : (ps : List PageProgress) → Evolves ps ps
Evolves-refl [] = tt
Evolves-refl (p ∷ ps) = (inl refl, Evolves-refl ps)

IsHandedOut-cons :
    (j : JobId) (index : ℕ) (p : PageProgress) (ps : List PageProgress) (t : PageTask)
    → IsHandedOut j (index + 1) ps t
    → IsHandedOut j index (p ∷ ps) t
IsHandedOut-cons j index p ps t h = record {
  offset = suc h.offset;
  numbered = omega (arith, h.numbered);
  keyed = h.keyed;
  found = h.found;
}

pub IsAscending-weaken :
    (low high : ℕ) (ts : List PageTask) → low ≤ high → IsAscending high ts → IsAscending low ts
IsAscending-weaken low high [] h k = tt
IsAscending-weaken low high (t ∷ ts) h k = (omega arith, k.1)

-- A settled page is passed over.
skip :
    (j : JobId) (left index : ℕ) (p : PageProgress) (ps : List PageProgress) (c : Claim)
    → is_settled p ≡ true
    → Claimed j left (index + 1) ps c
    → Claimed j left index (p ∷ ps) (keep_page p c)
unfolding unsettled
skip j left index p ps c s h = record {
  tasks = h.tasks;
  returned = h.returned;
  counted = rw s (omega (arith, h.counted));
  handed_out = All-imp _ _ (IsHandedOut-cons j index p c.0) h.tasks h.handed_out;
  ascending = IsAscending-weaken index (index + 1) h.tasks (omega arith) h.ascending;
  evolves = (inl refl, h.evolves);
}

claim_page-ok :
    (p : PageProgress) (t : PageTask) (ts : List PageTask) (c : Claim)
    → c.1 ≡ ok ts
    → claim_page p t c ≡ (p ∷ c.0, ok (t ∷ ts))
claim_page-ok p t ts (ps, ok us) h = ground arith
claim_page-ok p t ts (ps, err e) h = cc

-- Any other page is handed out.
take_page :
    (j : JobId) (left index a : ℕ) (p : PageProgress) (ps : List PageProgress) (c : Claim)
    → is_settled p ≡ false
    → claimed_attempt p ≡ some a
    → index + 1 ≤ u32_max
    → Claimed j left (index + 1) ps c
    → Claimed j (suc left) index (p ∷ ps) (
        if ltb u32_max (index + 1)
        then (running a ∷ ps, err invalid_page_workflow)
        else claim_page (running a) (task j (index + 1) a) c)
unfolding unsettled
take_page j left index a p ps c s e small h =
    rw (few, claim_page-ok (running a) t h.tasks c h.returned)
      (record {
        tasks = t ∷ h.tasks;
        returned = refl;
        counted = rw s (omega (arith, h.counted));
        handed_out = (
          record { offset = 0; numbered = omega arith; keyed = refl; found = refl },
          All-imp _ _ (IsHandedOut-cons j index (running a) c.0) h.tasks h.handed_out,
        );
        ascending = (omega arith, h.ascending);
        evolves = (inr (a, e, refl), h.evolves);
      })
  where
    t : PageTask
    t = task j (index + 1) a

    few : ltb u32_max (index + 1) ≡ false
    few = ground arith

pub claim_from-Claimed :
    (j : JobId) (left index : ℕ) (ps : List PageProgress)
    → index + length ps ≤ u32_max
    → Claimed j left index ps (claim_from j left index ps)
unfolding claim_from
claim_from-Claimed j left index [] h =
    unfold unsettled in
    record {
      tasks = [];
      returned = refl;
      counted = omega arith;
      handed_out = tt;
      ascending = tt;
      evolves = tt;
    }
claim_from-Claimed j zero index (p ∷ ps) h = record {
  tasks = [];
  returned = refl;
  counted = omega arith;
  handed_out = tt;
  ascending = tt;
  evolves = Evolves-refl (p ∷ ps);
}
claim_from-Claimed j (suc left) index (running a ∷ ps) h =
    take_page j left index a (running a) ps _ refl refl (omega arith)
      (claim_from-Claimed j left (index + 1) ps (omega arith))
claim_from-Claimed j (suc left) index (pending f ∷ ps) h =
    take_page j left index _ (pending f) ps _ refl refl (omega arith)
      (claim_from-Claimed j left (index + 1) ps (omega arith))
claim_from-Claimed j (suc left) index (succeeded a ∷ ps) h =
    skip j (suc left) index (succeeded a) ps _ refl
      (claim_from-Claimed j (suc left) (index + 1) ps (omega arith))
claim_from-Claimed j (suc left) index (exhausted a ∷ ps) h =
    skip j (suc left) index (exhausted a) ps _ refl
      (claim_from-Claimed j (suc left) (index + 1) ps (omega arith))
claim_from-Claimed j (suc left) index (permanently_failed a ∷ ps) h =
    skip j (suc left) index (permanently_failed a) ps _ refl
      (claim_from-Claimed j (suc left) (index + 1) ps (omega arith))
