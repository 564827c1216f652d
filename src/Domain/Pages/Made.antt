-- ===== src/Domain/Pages/Made.antt =====
-- Which pages `DocumentPage::new` of crates/ocr-domain/src/lib.rs makes of a list of observations.
use mathlib.Core.List.{Permᴰ}
use document_intelligence.Base.{
  ℕ, ◌<◌, ◌≤◌, ◌≡◌, ◌↔◌, refl, sym, ap, subst, ◌∙◌, Bool, true, false, ◌||◌, List, [], arith,
  if◌then◌else◌, ltb, ◌==◌, length, ok, err, sort_by_key, sort_by_key-Permᴰ, sort_by_key-IsSorted,
  sort_by_key_unique, increasing-IsSorted, Permᴰ_refl, Permᴰ_sym, length-Permᴰ, Result,
  ok_injective,
}
use document_intelligence.Domain.Errors.{Error, invalid_document_page}
use document_intelligence.Domain.Geometry.{PageNumber}
use document_intelligence.Domain.Pages.{
  TextObservation, DocumentPage, has_misplaced, new_document_page,
}
use document_intelligence.Domain.Pages.Order.{
  IsArranged, order, IsArranged-iff, arranged-IsIncreasing,
}

-- A page with these observations, in whichever order they come.
abbrev pub IsPageOf : PageNumber → ℕ → ℕ → List TextObservation → DocumentPage → Type 0
IsPageOf number width height observations d =
    (0 < width)
    × (0 < height)
    × (length observations ≤ 100000)
    × Permᴰ observations d.observations
    × IsArranged [] d.observations
    × (d.page ≡ number)
    × (d.width ≡ width)
    × (d.height ≡ height)

two_tests {ℓ} :
    {A : Type ℓ} (b c : Bool) (e : Error) (r d : A)
    → ◌≡◌ {A = Result Error A} (if b then err e else (if c then err e else ok r)) (ok d)
    → (b ≡ false) × (c ≡ false) × (r ≡ d)
two_tests true c e r d h = cc
two_tests false true e r d h = cc
two_tests false false e r d h = (refl, refl, ok_injective r d h)

accept :
    (number : PageNumber) (width height : ℕ) (os ds : List TextObservation)
    → 0 < width
    → 0 < height
    → length os ≤ 100000
    → sort_by_key order os ≡ ds
    → has_misplaced [] ds ≡ false
    → new_document_page number width height os
      ≡ ok (record { page = number; width = width; height = height; observations = ds })
unfolding new_document_page
accept number width height os ds w h l s m =
    let guard : (width == 0 || (height == 0 || ltb 100000 (length os))) ≡ false =
      ground (arith, w, h, l) in
    rw (guard, s, m)

made :
    (number : PageNumber) (width height : ℕ) (os : List TextObservation) (d : DocumentPage)
    → new_document_page number width height os ≡ ok d
    → IsPageOf number width height os d
unfolding new_document_page
made number width height os d e =
    let sorted = sort_by_key order os in
    let tests =
      two_tests (width == 0 || (height == 0 || ltb 100000 (length os))) (has_misplaced [] sorted)
        invalid_document_page _ d e in
    let arranged = (IsArranged-iff [] sorted tt (sort_by_key-IsSorted order os)).0 tests.1 in
    let same : sorted ≡ d.observations = ap (λ (p : DocumentPage). p.observations) tests.2 in
    (
      ground (arith, tests.0),
      ground (arith, tests.0),
      ground (arith, tests.0),
      subst (λ l. Permᴰ os l) same (Permᴰ_sym (sort_by_key-Permᴰ order os)),
      subst (IsArranged []) same arranged,
      sym (ap (λ (p : DocumentPage). p.page) tests.2),
      sym (ap (λ (p : DocumentPage). p.width) tests.2),
      sym (ap (λ (p : DocumentPage). p.height) tests.2),
    )

-- A page is made exactly of those observations that can be arranged so that reading orders
-- increase, identifiers differ, and each observation comes after its parent; the page then has
-- them in that order, under sides above 0 and at most 100000 of them.
pub new_document_page_iff :
    (number : PageNumber) (width height : ℕ) (observations : List TextObservation)
    (d : DocumentPage)
    → (new_document_page number width height observations ≡ ok d)
      ↔ IsPageOf number width height observations d
new_document_page_iff number width height observations d = (
  made number width height observations d,
  λ (w, h, l, p, a, n, dw, dh).
      (let increasing = arranged-IsIncreasing [] d.observations a in
        let placed =
          (IsArranged-iff [] d.observations tt
              (increasing-IsSorted order d.observations increasing)).1
            a in
        accept number width height observations d.observations w h l
          (sort_by_key_unique order p increasing) placed
        ∙ cc),
)

-- A page that was made is made again of the observations that it holds, so a stored page can be
-- read back.
pub new_document_page_again :
    (number : PageNumber) (width height : ℕ) (observations : List TextObservation)
    (d : DocumentPage)
    → new_document_page number width height observations ≡ ok d
    → new_document_page d.page d.width d.height d.observations ≡ ok d
new_document_page_again number width height observations d e =
    let (w, h, l, p, a, n, dw, dh) = made number width height observations d e in
    (new_document_page_iff d.page d.width d.height d.observations d).1 (
      omega (arith, w, dw),
      omega (arith, h, dh),
      omega (arith, l, length-Permᴰ p),
      Permᴰ_refl d.observations,
      a,
      refl,
      refl,
      refl,
    )

-- Observations in another order make the same page, or none where the others make none.
pub new_document_page_order :
    (number : PageNumber) (width height : ℕ) (os qs : List TextObservation) (d : DocumentPage)
    → Permᴰ os qs
    → (new_document_page number width height os ≡ ok d)
      ↔ (new_document_page number width height qs ≡ ok d)
new_document_page_order number width height os qs d q =
    (rearrange os qs q, rearrange qs os (Permᴰ_sym q))
  where
    rearrange :
        (os qs : List TextObservation)
        → Permᴰ os qs
        → new_document_page number width height os ≡ ok d
        → new_document_page number width height qs ≡ ok d
    rearrange os qs q e =
        let (w, h, l, p, a, n, dw, dh) = made number width height os d e in
        (new_document_page_iff number width height qs d).1
          (w, h, omega (arith, l, length-Permᴰ q), Permᴰ.trans (Permᴰ_sym q) p, a, n, dw, dh)
