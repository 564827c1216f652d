-- ===== src/PageWorkflow/Invariant.antt =====
-- The page workflows that `TryFrom<RawPageWorkflow>` of crates/ocr-domain/src/page_workflow.rs accepts.
use document_intelligence.Base.{
  ℕ, ◌≤◌, ◌<◌, ◌≡◌, refl, ◌↔◌, ◌⊎◌, false, List, [], ◌∷◌, arith, length, All, any, ok, err,
}
use document_intelligence.Domain.Errors.{invalid_page_workflow}
use document_intelligence.PageWorkflow.{
  PageWorkflow, PageProgress, pending, running, succeeded, exhausted, permanently_failed,
  is_malformed, try_from, maximum_page_count, maximum_page_attempts,
}

-- The attempts that a page may have made under a limit of `m`.
abbrev pub IsWellFormed : ℕ → PageProgress → Type 0
IsWellFormed m (pending failures) = failures < m
IsWellFormed m (running attempt) = (0 < attempt) × (attempt ≤ m)
IsWellFormed m (succeeded attempt) = (0 < attempt) × (attempt ≤ m)
IsWellFormed m (exhausted attempts) = attempts ≡ m
IsWellFormed m (permanently_failed attempt) = (0 < attempt) × (attempt ≤ m)

pub record IsValid (w : PageWorkflow) : Type 0 where
  pub some_attempts : 0 < w.max_attempts
  pub few_attempts : w.max_attempts ≤ maximum_page_attempts
  pub some_pages : 0 < length w.pages
  pub few_pages : length w.pages ≤ maximum_page_count
  pub well_formed : All (IsWellFormed w.max_attempts) w.pages

IsWellFormed-of : (m : ℕ) (p : PageProgress) → is_malformed m p ≡ false → IsWellFormed m p
IsWellFormed-of m (pending f) h = ground arith
IsWellFormed-of m (running a) h = ground arith
IsWellFormed-of m (succeeded a) h = ground arith
IsWellFormed-of m (exhausted a) h = ground arith
IsWellFormed-of m (permanently_failed a) h = ground arith

not_malformed : (m : ℕ) (p : PageProgress) → IsWellFormed m p → is_malformed m p ≡ false
not_malformed m (pending f) h = ground arith
not_malformed m (running a) h = ground arith
not_malformed m (succeeded a) h = ground arith
not_malformed m (exhausted a) h = ground arith
not_malformed m (permanently_failed a) h = ground arith

All-IsWellFormed :
    (m : ℕ) (ps : List PageProgress) → any (is_malformed m) ps ≡ false → All (IsWellFormed m) ps
All-IsWellFormed m [] h = tt
All-IsWellFormed m (p ∷ ps) h =
    (IsWellFormed-of m p (ground arith), All-IsWellFormed m ps (ground arith))

any-malformed :
    (m : ℕ) (ps : List PageProgress) → All (IsWellFormed m) ps → any (is_malformed m) ps ≡ false
any-malformed m [] h = refl
any-malformed m (p ∷ ps) h = rw (not_malformed m p h.0) (any-malformed m ps h.1)

try_from-refused :
    (w : PageWorkflow) → (try_from w ≡ ok w) ⊎ (try_from w ≡ err invalid_page_workflow)
unfolding try_from
try_from-refused w = ground arith

try_from-IsValid : (w : PageWorkflow) → try_from w ≡ ok w → IsValid w
unfolding try_from
try_from-IsValid w h = record {
  some_attempts = ground arith;
  few_attempts = ground arith;
  some_pages = ground arith;
  few_pages = ground arith;
  well_formed = All-IsWellFormed w.max_attempts w.pages (ground arith);
}

pub IsValid-try_from : (w : PageWorkflow) → IsValid w → try_from w ≡ ok w
unfolding try_from
IsValid-try_from w v = ground (arith, any-malformed w.max_attempts w.pages v.well_formed)

-- Deserialization accepts exactly the valid workflows, returns the one that it was given, and
-- refuses every other with InvalidPageWorkflow.
pub try_from_iff :
    (w : PageWorkflow)
    → ((try_from w ≡ ok w) ↔ IsValid w)
      × ((try_from w ≡ ok w) ⊎ (try_from w ≡ err invalid_page_workflow))
try_from_iff w = ((try_from-IsValid w, IsValid-try_from w), try_from-refused w)
