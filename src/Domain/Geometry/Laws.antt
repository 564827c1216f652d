-- ===== src/Domain/Geometry/Laws.antt =====
-- Which numbers and sizes crates/ocr-domain/src/lib.rs accepts.
use document_intelligence.Base.{
  ℕ, ◌*◌, ◌<◌, ◌≤◌, ◌≡◌, ◌↔◌, ◌⊎◌, refl, sym, ap, Bool, true, false, arith, Result, ok, err,
  ok_injective, if◌then◌else◌,
}
use document_intelligence.Domain.Errors.{Error, invalid_confidence}
use document_intelligence.Domain.Geometry.{
  F64, Confidence, PageNumber, PageGeometry, new_page_geometry, new_confidence, in_unit,
}

-- A page has sides above 0 and at most 100 million pixels, for whichever sides are given: a
-- product that 64 bits do not hold is refused too.
pub new_page_geometry_iff :
    (page : PageNumber) (width height : ℕ) (g : PageGeometry)
    → (new_page_geometry page width height ≡ ok g) ↔ (
        (0 < width)
        × (0 < height)
        × (width * height ≤ 1_0000_0000)
        × (record { page = page; width = width; height = height } ≡ g))
unfolding new_page_geometry
new_page_geometry_iff page width height g = (
  λ h. (ground arith, ground arith, ground arith, ground arith),
  λ (w, h, p, e). ground (arith, w, h, p, e),
)

in_unit_iff :
    (x : F64)
    → x.bits < 18446744073709551616
    → (in_unit x ≡ true) ↔ ((x.bits ≤ 4607182418800017408) ⊎ (x.bits ≡ 9223372036854775808))
unfolding in_unit
in_unit_iff x h = (λ e. ground arith, λ e. ground arith)

-- A confidence is the bits of a number from 0 to 1, or of the negative zero.
pub new_confidence_iff :
    (x : F64) (c : Confidence)
    → x.bits < 18446744073709551616
    → (new_confidence x ≡ ok c)
      ↔ (((x.bits ≤ 4607182418800017408) ⊎ (x.bits ≡ 9223372036854775808)) × (c.value ≡ x))
unfolding new_confidence in_unit
new_confidence_iff x c h =
    let unit = in_unit_iff x h in
    (
      λ e. (unit.0 (test (in_unit x) e).0, (test (in_unit x) e).1),
      λ (u, v). rw (unit.1 u) (ap (λ (y : F64). ok (record { value = y })) (sym v)),
    )
  where
    test :
        (b : Bool)
        → ◌≡◌ {A = Result Error Confidence}
            (if b then ok (record { value = x }) else err invalid_confidence)
            (ok c)
        → (b ≡ true) × (c.value ≡ x)
    test true e = (refl, ap (λ (k : Confidence). k.value) (sym (ok_injective _ c e)))
    test false e = cc
