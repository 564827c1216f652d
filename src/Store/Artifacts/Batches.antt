-- ===== src/Store/Artifacts/Batches.antt =====
-- What the batches of artifacts hold that crates/ocr-store/src/lib.rs accepts.
use document_intelligence.Base.{
  ℕ, ◌≤◌, ◌<◌, ◌≡◌, true, false, List, [], ◌∷◌, map, arith, ok, All, length, sort_by_key,
  sort_by_key-Permᴰ, sort_by_key-IsSorted, IsSorted, IsIncreasing, IsDistinct,
  increasing-IsDistinct, occurrences-Permᴰ, All-imp,
}
use document_intelligence.Base.Text.{str_eq_iff}
use document_intelligence.Domain.Ids.{JobId}
use document_intelligence.PageWorkflow.{PageWorkflow, is_successful_task, activity_key}
use document_intelligence.Store.Values.{StoredPageArtifact}
use document_intelligence.Store.Artifacts.{
  validate_batch_member, validate_batch_members, repeats_neighbour, page_of, itself, task_of,
  validate_page_artifact_batch, validate_page_artifact,
}

sorted-IsIncreasing :
    (pages : List ℕ)
    → IsSorted itself pages
    → repeats_neighbour pages ≡ false
    → IsIncreasing itself pages
unfolding repeats_neighbour
sorted-IsIncreasing [] s n = tt
sorted-IsIncreasing (a ∷ []) s n = (tt, tt)
sorted-IsIncreasing (a ∷ b ∷ pages) s n =
    let rest = sorted-IsIncreasing (b ∷ pages) s.1 (ground (arith, n)) in
    let first : a < b = ground (arith, n, s.0.0) in
    ((first, All-imp (λ y. b < y) (λ y. a < y) (λ y h. omega arith) pages rest.0), rest)

-- What an accepted artifact is known to be.
pub record IsOf (id : JobId) (workflow : PageWorkflow) (artifact : StoredPageArtifact)
    : Type 0 where
  pub well_formed : validate_page_artifact artifact ≡ ok tt
  pub key : artifact.activity_key ≡ activity_key id artifact.page artifact.attempt
  pub successful : is_successful_task workflow (task_of artifact) ≡ true

member-IsOf :
    (id : JobId) (workflow : PageWorkflow) (artifact : StoredPageArtifact)
    → validate_batch_member id workflow artifact ≡ ok tt
    → IsOf id workflow artifact
unfolding validate_batch_member
member-IsOf id workflow artifact e = record {
  well_formed = ground (arith, e);
  key =
      (str_eq_iff artifact.activity_key (activity_key id artifact.page artifact.attempt)).0
        (ground (arith, e));
  successful = ground (arith, e);
}

members-IsOf :
    (id : JobId) (workflow : PageWorkflow) (artifacts : List StoredPageArtifact)
    → validate_batch_members id workflow artifacts ≡ ok tt
    → All (IsOf id workflow) artifacts
unfolding validate_batch_members
members-IsOf id workflow [] e = tt
members-IsOf id workflow (a ∷ artifacts) e = (
  member-IsOf id workflow a (ground (arith, e)),
  members-IsOf id workflow artifacts (ground (arith, e)),
)

-- Every artifact of an accepted batch is well-formed and belongs to the attempt in which its page
-- of the workflow succeeded, with the key of that attempt; no page has two; there are at most 64.
pub validate_page_artifact_batch-IsOf :
    (id : JobId) (workflow : PageWorkflow) (artifacts : List StoredPageArtifact)
    → validate_page_artifact_batch id workflow artifacts ≡ ok tt
    → All (IsOf id workflow) artifacts
      × IsDistinct itself (map page_of artifacts)
      × (length artifacts ≤ 64)
unfolding validate_page_artifact_batch
validate_page_artifact_batch-IsOf id workflow artifacts e =
    let pages = map page_of artifacts in
    let sorted = sort_by_key itself pages in
    let increasing =
      sorted-IsIncreasing sorted (sort_by_key-IsSorted itself pages) (ground (arith, e)) in
    let distinct = increasing-IsDistinct itself sorted increasing in
    (
      members-IsOf id workflow artifacts (ground (arith, e)),
      (λ k. omega (arith, distinct k, occurrences-Permᴰ itself k (sort_by_key-Permᴰ itself pages))),
      ground (arith, e),
    )
