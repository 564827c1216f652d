-- ===== src/Store/Geometries.antt =====
-- What `valid_page_geometries` of crates/ocr-store/src/lib.rs accepts.
use document_intelligence.Base.{
  ℕ, ◌+◌, ◌≤◌, ◌≡◌, ◌↔◌, max, true, List, [], ◌∷◌, some, arith, length, u32_max, u64_max,
  Option-cases, inl, inr,
}
use document_intelligence.Domain.Geometry.{PageGeometry, pixels}
use document_intelligence.Store.Validation.{scan_geometries, valid_page_geometries}

-- The pages are numbered one after another.
abbrev pub IsNumberedFrom : ℕ → List PageGeometry → Type 0
IsNumberedFrom n [] = Unit
IsNumberedFrom n (p ∷ ps) = (p.page.number ≡ n) × IsNumberedFrom (n + 1) ps

pub largest : List PageGeometry → ℕ
largest [] = 0
largest (p ∷ ps) = max (pixels p) (largest ps)

pub total : List PageGeometry → ℕ
total [] = 0
total (p ∷ ps) = pixels p + total ps

scan-accepts :
    (i m t : ℕ) (pages : List PageGeometry)
    → IsNumberedFrom (i + 1) pages
    → i + length pages ≤ u32_max
    → t + total pages ≤ u64_max
    → scan_geometries i m t pages ≡ some (max m (largest pages), t + total pages)
unfolding scan_geometries largest total
scan-accepts i m t [] n few small = ground arith
scan-accepts i m t (p ∷ ps) n few small = ground (
  arith,
  n.0,
  few,
  small,
  scan-accepts (i + 1) (max m (pixels p)) (t + pixels p) ps n.1 (omega arith) (omega arith),
)

scan-some :
    (i m t : ℕ) (pages : List PageGeometry) (r : ℕ × ℕ)
    → t ≤ u64_max
    → i ≤ u32_max
    → scan_geometries i m t pages ≡ some r
    → IsNumberedFrom (i + 1) pages × (i + length pages ≤ u32_max) × (t + total pages ≤ u64_max)
unfolding scan_geometries largest total
scan-some i m t [] r small few e = ground arith
scan-some i m t (p ∷ ps) r small few e =
    ground (arith, e, scan-some (i + 1) (max m (pixels p)) (t + pixels p) ps r)

-- The geometries that are accepted are those of as many pages as stated, numbered from 1 on, whose
-- largest page and whose total have the stated numbers of pixels; the numbers fit into an u32 and
-- an u64.
pub valid_page_geometries_iff :
    (pages : List PageGeometry) (page_count maximum_page_pixels total_page_pixels : ℕ)
    → (valid_page_geometries pages page_count maximum_page_pixels total_page_pixels ≡ true) ↔ (
        (length pages ≡ page_count)
        × IsNumberedFrom 1 pages
        × (largest pages ≡ maximum_page_pixels)
        × (total pages ≡ total_page_pixels)
        × (page_count ≤ u32_max)
        × (total_page_pixels ≤ u64_max))
unfolding valid_page_geometries
valid_page_geometries_iff pages n m t = (forth, back)
  where
    back :
        (length pages ≡ n)
          × IsNumberedFrom 1 pages
          × (largest pages ≡ m)
          × (total pages ≡ t)
          × (n ≤ u32_max)
          × (t ≤ u64_max)
        → valid_page_geometries pages n m t ≡ true
    back (count, numbered, most, sum, few, small) =
        ground
          (arith, count, most, sum, scan-accepts 0 0 0 pages numbered (omega arith) (omega arith))

    forth :
        valid_page_geometries pages n m t ≡ true
        → (length pages ≡ n)
          × IsNumberedFrom 1 pages
          × (largest pages ≡ m)
          × (total pages ≡ t)
          × (n ≤ u32_max)
          × (t ≤ u64_max)
    forth h = elim (Option-cases (scan_geometries 0 0 0 pages)) [
      | inl e ↦ absurd (ground (arith, h, e))
      | inr (r, e) ↦
          (let (numbered, few, small) = scan-some 0 0 0 pages r (omega arith) (omega arith) e in
            let done = scan-accepts 0 0 0 pages numbered few small in
            ground (arith, h, e, done, numbered, few, small))
    ]
