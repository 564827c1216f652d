-- ===== src/Base/Sorting.antt =====
-- `sort_by_key`, which is stable: insertion before the first element with a larger or equal key,
-- from the last element to the first. The laws are about the result: it is sorted, it has the
-- elements of the argument, and it does not depend on their order where keys are distinct.
use Prim.Native.Nat.{ℕ, ◌+◌, ◌≤◌, ◌<◌}
use mathlib.Core.Path.{◌≡◌, refl, ap, ap₂, subst, ◌∙◌}
use mathlib.Core.Logic.{◌≢◌, inl, inr}
use mathlib.Core.List as CoreList
use mathlib.Core.List.{List, [], ◌∷◌, Permᴰ}
use native.Mathlib.Omega.{arith}
use document_intelligence.Base.Tests.{if◌then◌else◌, leb, ◌==◌, leb→le, Bool-cases, if-holds}
use document_intelligence.Base.Lists.{All, All-imp, length}

module _ {ℓ} {A : Type ℓ} (key : A → ℕ) where
  unfoldable pub insert : A → List A → List A
  insert a [] = a ∷ []
  insert a (x ∷ xs) = if leb (key a) (key x) then a ∷ x ∷ xs else x ∷ insert a xs

  unfoldable pub sort_by_key : List A → List A
  unfolding insert
  sort_by_key [] = []
  sort_by_key (x ∷ xs) = insert x (sort_by_key xs)

  -- Each key is below those that follow.
  abbrev pub IsIncreasing : List A → Type ℓ
  IsIncreasing [] = Unit
  IsIncreasing (x ∷ xs) = All (λ y. key x < key y) xs × IsIncreasing xs

  -- No key is above one that follows.
  abbrev pub IsSorted : List A → Type ℓ
  IsSorted [] = Unit
  IsSorted (x ∷ xs) = All (λ y. key x ≤ key y) xs × IsSorted xs

  -- The number of elements with a key.
  abbrev pub occurrences : ℕ → List A → ℕ
  occurrences k [] = 0
  occurrences k (x ∷ xs) = (if key x == k then 1 else 0) + occurrences k xs

module _ {ℓ} {A : Type ℓ} (key : A → ℕ) where
  insert-Permᴰ : (a : A) (xs : List A) → Permᴰ (insert key a xs) (a ∷ xs)
  unfolding insert
  insert-Permᴰ a [] = CoreList.Permᴰ.refl (a ∷ [])
  insert-Permᴰ a (x ∷ xs) =
      if-holds (λ l. Permᴰ l (a ∷ x ∷ xs)) (leb (key a) (key x)) (a ∷ x ∷ xs) (x ∷ insert key a xs)
        (CoreList.Permᴰ.refl (a ∷ x ∷ xs))
        (Permᴰ.trans (Permᴰ.cons refl (insert-Permᴰ a xs)) (Permᴰ.swap refl refl))

  pub sort_by_key-Permᴰ : (xs : List A) → Permᴰ (sort_by_key key xs) xs
  unfolding sort_by_key
  sort_by_key-Permᴰ [] = Permᴰ.nil
  sort_by_key-Permᴰ (x ∷ xs) =
      Permᴰ.trans (insert-Permᴰ x (sort_by_key key xs)) (Permᴰ.cons refl (sort_by_key-Permᴰ xs))

  All-insert {κ} : (P : A → Type κ) (a : A) (xs : List A) → P a → All P xs → All P (insert key a xs)
  unfolding insert
  All-insert P a [] p h = (p, tt)
  All-insert P a (x ∷ xs) p h =
      if-holds (All P) (leb (key a) (key x)) (a ∷ x ∷ xs) (x ∷ insert key a xs) (p, h)
        (h.0, All-insert P a xs p h.1)

  insert-IsSorted : (a : A) (xs : List A) → IsSorted key xs → IsSorted key (insert key a xs)
  unfolding insert
  insert-IsSorted a [] h = (tt, tt)
  insert-IsSorted a (x ∷ xs) h = elim (Bool-cases (leb (key a) (key x))) [
    | inl e ↦
        (let le = leb→le (key a) (key x) e in
          let above =
            All-imp (λ y. key x ≤ key y) (λ y. key a ≤ key y) (λ y k. omega arith) xs h.0 in
          let sorted : IsSorted key (a ∷ x ∷ xs) = ((le, above), h) in rw e sorted)
    | inr e ↦
        (let above = All-insert (λ y. key x ≤ key y) a xs (ground arith) h.0 in
          let sorted : IsSorted key (x ∷ insert key a xs) = (above, insert-IsSorted a xs h.1) in
          rw e sorted)
  ]

  pub sort_by_key-IsSorted : (xs : List A) → IsSorted key (sort_by_key key xs)
  unfolding sort_by_key
  sort_by_key-IsSorted [] = tt
  sort_by_key-IsSorted (x ∷ xs) = insert-IsSorted x (sort_by_key key xs) (sort_by_key-IsSorted xs)

  insert_first : (a : A) (xs : List A) → All (λ y. key a ≤ key y) xs → insert key a xs ≡ a ∷ xs
  unfolding insert
  insert_first a [] h = refl
  insert_first a (x ∷ xs) h = ground (arith, h.0)

  -- A sorted list is left as it is.
  pub sort_by_key_sorted : (xs : List A) → IsSorted key xs → sort_by_key key xs ≡ xs
  unfolding sort_by_key
  sort_by_key_sorted [] h = refl
  sort_by_key_sorted (x ∷ xs) h =
      ap (insert key x) (sort_by_key_sorted xs h.1) ∙ insert_first x xs h.0

  insert-insert :
      (a b : A) (xs : List A)
      → key a ≢ key b
      → insert key a (insert key b xs) ≡ insert key b (insert key a xs)
  unfolding insert
  insert-insert a b [] h = ground arith
  insert-insert a b (x ∷ xs) h = ground (arith, insert-insert a b xs h)

  pub occurrences-Permᴰ :
      {xs ys : List A} (k : ℕ) → Permᴰ xs ys → occurrences key k xs ≡ occurrences key k ys
  occurrences-Permᴰ k Permᴰ.nil = refl
  occurrences-Permᴰ k (Permᴰ.cons e p) = ground (arith, occurrences-Permᴰ k p, ap key e)
  occurrences-Permᴰ k (Permᴰ.swap e f) = ground (arith, ap key e, ap key f)
  occurrences-Permᴰ k (Permᴰ.trans p q) = occurrences-Permᴰ k p ∙ occurrences-Permᴰ k q

  -- No key occurs twice.
  abbrev pub IsDistinct : List A → Type 0
  IsDistinct xs = (k : ℕ) → occurrences key k xs ≤ 1

  sort_by_key_agree :
      {xs ys : List A} → Permᴰ xs ys → IsDistinct xs → sort_by_key key xs ≡ sort_by_key key ys
  unfolding sort_by_key
  sort_by_key_agree Permᴰ.nil h = refl
  sort_by_key_agree (Permᴰ.cons e p) h =
      ap₂ (insert key) e (sort_by_key_agree p (λ k. omega (arith, h k)))
  sort_by_key_agree (Permᴰ.swap {a = a} {b = b} {l = l} e f) h =
      let twice : occurrences key (key a) (a ∷ b ∷ l) ≤ 1 = h (key a) in
      insert-insert a b (sort_by_key key l) (λ k. ground (arith, twice, k))
      ∙ ap₂ (λ u v. insert key u (insert key v (sort_by_key key l))) f e
  sort_by_key_agree (Permᴰ.trans p q) h =
      sort_by_key_agree p h ∙ sort_by_key_agree q (λ k. omega (arith, occurrences-Permᴰ k p, h k))

  pub increasing-IsSorted : (xs : List A) → IsIncreasing key xs → IsSorted key xs
  increasing-IsSorted [] h = tt
  increasing-IsSorted (x ∷ xs) h = (
    All-imp (λ y. key x < key y) (λ y. key x ≤ key y) (λ y k. omega arith) xs h.0,
    increasing-IsSorted xs h.1,
  )

  increasing_absent : (k : ℕ) (xs : List A) → All (λ y. k < key y) xs → occurrences key k xs ≡ 0
  increasing_absent k [] h = refl
  increasing_absent k (x ∷ xs) h = ground (arith, h.0, increasing_absent k xs h.1)

  pub increasing-IsDistinct : (xs : List A) → IsIncreasing key xs → IsDistinct xs
  increasing-IsDistinct [] h k = omega arith
  increasing-IsDistinct (x ∷ xs) h k =
      ground (arith, increasing-IsDistinct xs h.1 k, increasing_absent (key x) xs h.0)

  -- A list with increasing keys is what any arrangement of its elements is sorted to.
  pub sort_by_key_unique :
      {xs ys : List A} → Permᴰ xs ys → IsIncreasing key ys → sort_by_key key xs ≡ ys
  sort_by_key_unique {xs} {ys} p h =
      let distinct = increasing-IsDistinct ys h in
      sort_by_key_agree p (λ k. omega (arith, occurrences-Permᴰ k p, distinct k))
      ∙ sort_by_key_sorted ys (increasing-IsSorted ys h)

module _ {ℓ} {A : Type ℓ} where
  pub length-Permᴰ : {xs ys : List A} → Permᴰ xs ys → length xs ≡ length ys
  length-Permᴰ Permᴰ.nil = refl
  length-Permᴰ (Permᴰ.cons e p) = omega (arith, length-Permᴰ p)
  length-Permᴰ (Permᴰ.swap e f) = refl
  length-Permᴰ (Permᴰ.trans p q) = length-Permᴰ p ∙ length-Permᴰ q

  pub Permᴰ_refl : (xs : List A) → Permᴰ xs xs
  Permᴰ_refl xs = CoreList.Permᴰ.refl xs

  pub Permᴰ_sym : {xs ys : List A} → Permᴰ xs ys → Permᴰ ys xs
  Permᴰ_sym p = CoreList.Permᴰ.symm p

  pub All-Permᴰ {κ} : (P : A → Type κ) {xs ys : List A} → Permᴰ xs ys → All P xs → All P ys
  All-Permᴰ P Permᴰ.nil h = tt
  All-Permᴰ P (Permᴰ.cons e p) h = (subst P e h.0, All-Permᴰ P p h.1)
  All-Permᴰ P (Permᴰ.swap e f) h = (subst P f h.1.0, (subst P e h.0, h.1.1))
  All-Permᴰ P (Permᴰ.trans p q) h = All-Permᴰ P q (All-Permᴰ P p h)
