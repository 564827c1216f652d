-- ===== src/Domain/Pages/Order.antt =====
-- What `DocumentPage::new` of crates/ocr-domain/src/lib.rs accepts: observations that some
-- arrangement puts into reading order, each after its parent.
use document_intelligence.Base.{
  ℕ, suc, ◌<◌, ◌≤◌, ◌≡◌, ◌≢◌, ◌↔◌, inl, inr, refl, true, false, ◌||◌, not, List, [], ◌∷◌, Option,
  none, some, arith, All, All-imp, any-true_iff, get_elem?, Bool-cases, All-get, IsSorted,
  IsIncreasing,
}
use document_intelligence.Base.Text.{str_eq, str_eq_iff, is_some_and}
use document_intelligence.Domain.Ids.{ObservationId}
use document_intelligence.Domain.Pages.{
  TextObservation, same_id, seen_id, seen_order, is_misplaced, has_misplaced,
}

-- The parent that an observation names stands among those before it.
abbrev pub HasParent : List TextObservation → Option ObservationId → Type 0
HasParent before none = Unit
HasParent before (some p) =
    (i : ℕ) × (b : TextObservation) × (get_elem? before i ≡ some b)
    × (b.observation_id.text ≡ p.text)

-- An observation is read after those before it, has an identifier of its own, and its parent is one
-- of them.
abbrev pub IsPlaced : List TextObservation → TextObservation → Type 0
IsPlaced before o =
    All (λ b. (b.reading_order < o.reading_order) × (b.observation_id.text ≢ o.observation_id.text))
      before
    × HasParent before o.parent_observation_id

-- Each observation is placed after those before it.
abbrev pub IsArranged : List TextObservation → List TextObservation → Type 0
IsArranged before [] = Unit
IsArranged before (o ∷ os) = IsPlaced before o × IsArranged (o ∷ before) os

abbrev pub order : TextObservation → ℕ
order o = o.reading_order

seen_id_iff :
    (p : ObservationId) (before : List TextObservation)
    → (seen_id p before ≡ true) ↔ HasParent before (some p)
seen_id_iff p before =
    let found = any-true_iff (λ b. same_id b.observation_id p) before in
    (
      λ h. (let f = found.0 h in (f.0, f.1, f.2, (str_eq_iff _ _).0 f.3)),
      λ (i, b, e, h). found.1 (i, b, e, (str_eq_iff b.observation_id.text p.text).1 h),
    )

parent_iff :
    (before : List TextObservation) (parent : Option ObservationId)
    → (is_some_and parent (λ p. not (seen_id p before)) ≡ false) ↔ HasParent before parent
parent_iff before none = (λ h. tt, λ h. refl)
parent_iff before (some p) =
    let seen = seen_id_iff p before in
    (λ h. seen.0 (ground (arith, h)), λ h. ground (arith, seen.1 h))

fresh_iff :
    (before : List TextObservation) (o : TextObservation)
    → All (λ b. order b ≤ order o) before
    → (seen_order (order o) before || seen_id o.observation_id before ≡ false)
      ↔ All
          (λ b.
            (b.reading_order < o.reading_order) × (b.observation_id.text ≢ o.observation_id.text))
          before
fresh_iff [] o below = (λ h. tt, λ h. refl)
fresh_iff (b ∷ bs) o below =
    let rest = fresh_iff bs o below.1 in
    let same = str_eq_iff b.observation_id.text o.observation_id.text in
    (
      λ h. (
        (ground (arith, h, below.0), λ e. ground (arith, h, same.1 e)),
        rest.0 (ground (arith, h)),
      ),
      λ h. elim (Bool-cases (str_eq b.observation_id.text o.observation_id.text)) [
        | inl e ↦ absurd (h.0.1 (same.0 e))
        | inr e ↦ ground (arith, e, h.0.0, rest.1 h.1)
      ],
    )

-- The test of the code in terms of the three conditions.
misplaced_iff :
    (before : List TextObservation) (o : TextObservation)
    → All (λ b. order b ≤ order o) before
    → (is_misplaced before o ≡ false) ↔ IsPlaced before o
misplaced_iff before o below =
    let fresh = fresh_iff before o below in
    let parent = parent_iff before o.parent_observation_id in
    (
      λ h. (fresh.0 (ground (arith, h)), parent.0 (ground (arith, h))),
      λ h. ground (arith, fresh.1 h.0, parent.1 h.1),
    )

-- What is read next is above what was read.
abbrev IsBelow : List TextObservation → List TextObservation → Type 0
IsBelow before os = All (λ b. All (λ o. order b ≤ order o) os) before

IsBelow-head :
    (before : List TextObservation) (o : TextObservation) (os : List TextObservation)
    → IsBelow before (o ∷ os)
    → All (λ b. order b ≤ order o) before × IsBelow before os
IsBelow-head before o os h = (
  All-imp (λ b. All (λ c. order b ≤ order c) (o ∷ os)) (λ b. order b ≤ order o) (λ b k. k.0) before
      h,
  All-imp (λ b. All (λ c. order b ≤ order c) (o ∷ os)) (λ b. All (λ c. order b ≤ order c) os)
      (λ b k. k.1) before h,
)

pub IsArranged-iff :
    (before os : List TextObservation)
    → IsBelow before os
    → IsSorted order os
    → (has_misplaced before os ≡ false) ↔ IsArranged before os
unfolding has_misplaced
IsArranged-iff before [] below sorted = (λ h. tt, λ h. refl)
IsArranged-iff before (o ∷ os) below sorted =
    let split = IsBelow-head before o os below in
    let head = misplaced_iff before o split.0 in
    let rest = IsArranged-iff (o ∷ before) os (sorted.0, split.1) sorted.1 in
    (
      λ h. (head.0 (ground (arith, h)), rest.0 (ground (arith, h))),
      λ h. ground (arith, head.1 h.0, rest.1 h.1),
    )

arranged_above :
    (b : TextObservation) (before os : List TextObservation) (i : ℕ)
    → get_elem? before i ≡ some b
    → IsArranged before os
    → All (λ o. order b < order o) os
arranged_above b before [] i e h = tt
arranged_above b before (o ∷ os) i e h =
    let placed =
      All-get
        (λ b. (b.reading_order < o.reading_order) × (b.observation_id.text ≢ o.observation_id.text))
        before i b h.0.0 e in
    (placed.0, arranged_above b (o ∷ before) os (suc i) e h.1)

pub arranged-IsIncreasing :
    (before os : List TextObservation) → IsArranged before os → IsIncreasing order os
arranged-IsIncreasing before [] h = tt
arranged-IsIncreasing before (o ∷ os) h =
    (arranged_above o (o ∷ before) os 0 refl h.1, arranged-IsIncreasing (o ∷ before) os h.1)
