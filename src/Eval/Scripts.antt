-- ===== src/Eval/Scripts.antt =====
-- The specification of the edit distance that crates/ocr-eval/src/lib.rs computes: scripts that
-- turn one list into another, and what the recursive distance says about them.
use document_intelligence.Base.{
  ℕ, suc, ◌+◌, ◌≤◌, min, ◌≡◌, ◌↔◌, refl, ap, subst, ◌∙◌, Bool-cases, inl, inr, Bool, true, List, [],
  ◌∷◌, ◌++◌, arith, leb, length,
}
use document_intelligence.Eval.Levenshtein.{differs}

-- The ways to turn a list into another with a number of deletions, insertions and replacements.
pub data Script {T : Type 0} : ℕ → List T → List T → Type 0 where
  done : Script 0 [] []
  keep : {n : ℕ} {a : T} {xs ys : List T} → Script n xs ys → Script n (a ∷ xs) (a ∷ ys)
  replace : {n : ℕ} {a b : T} {xs ys : List T} → Script n xs ys → Script (suc n) (a ∷ xs) (b ∷ ys)
  delete : {n : ℕ} {a : T} {xs ys : List T} → Script n xs ys → Script (suc n) (a ∷ xs) ys
  insert : {n : ℕ} {b : T} {xs ys : List T} → Script n xs ys → Script (suc n) xs (b ∷ ys)

module _ {T : Type 0} where
  -- The least number of edits is the same in the other direction.
  pub swap : {n : ℕ} {xs ys : List T} → Script n xs ys → Script n ys xs
  swap done = done
  swap (keep s) = keep (swap s)
  swap (replace s) = replace (swap s)
  swap (delete s) = insert (swap s)
  swap (insert s) = delete (swap s)

  keep_last :
      {n : ℕ} {xs ys : List T} (a : T) → Script n xs ys → Script n (xs ++ a ∷ []) (ys ++ a ∷ [])
  keep_last a done = keep done
  keep_last a (keep s) = keep (keep_last a s)
  keep_last a (replace s) = replace (keep_last a s)
  keep_last a (delete s) = delete (keep_last a s)
  keep_last a (insert s) = insert (keep_last a s)

  replace_last :
      {n : ℕ} {xs ys : List T} (a b : T)
      → Script n xs ys
      → Script (suc n) (xs ++ a ∷ []) (ys ++ b ∷ [])
  replace_last a b done = replace done
  replace_last a b (keep s) = keep (replace_last a b s)
  replace_last a b (replace s) = replace (replace_last a b s)
  replace_last a b (delete s) = delete (replace_last a b s)
  replace_last a b (insert s) = insert (replace_last a b s)

  delete_last : {n : ℕ} {xs ys : List T} (a : T) → Script n xs ys → Script (suc n) (xs ++ a ∷ []) ys
  delete_last a done = delete done
  delete_last a (keep s) = keep (delete_last a s)
  delete_last a (replace s) = replace (delete_last a s)
  delete_last a (delete s) = delete (delete_last a s)
  delete_last a (insert s) = insert (delete_last a s)

  insert_last : {n : ℕ} {xs ys : List T} (b : T) → Script n xs ys → Script (suc n) xs (ys ++ b ∷ [])
  insert_last b done = insert done
  insert_last b (keep s) = keep (insert_last b s)
  insert_last b (replace s) = replace (insert_last b s)
  insert_last b (delete s) = delete (insert_last b s)
  insert_last b (insert s) = insert (insert_last b s)

  abbrev pub reverse : List T → List T
  reverse [] = []
  reverse (x ∷ xs) = reverse xs ++ x ∷ []

  pub reversed : {n : ℕ} {xs ys : List T} → Script n xs ys → Script n (reverse xs) (reverse ys)
  reversed done = done
  reversed (keep s) = keep_last _ (reversed s)
  reversed (replace s) = replace_last _ _ (reversed s)
  reversed (delete s) = delete_last _ (reversed s)
  reversed (insert s) = insert_last _ (reversed s)

  reverse-append : (xs : List T) (a : T) → reverse (xs ++ a ∷ []) ≡ a ∷ reverse xs
  reverse-append [] a = refl
  reverse-append (x ∷ xs) a = ap (λ l. l ++ x ∷ []) (reverse-append xs a)

  pub reverse-reverse : (xs : List T) → reverse (reverse xs) ≡ xs
  reverse-reverse [] = refl
  reverse-reverse (x ∷ xs) = reverse-append (reverse xs) x ∙ ap (λ l. x ∷ l) (reverse-reverse xs)

  -- Scripts between the reversed lists are scripts between the lists.
  pub unreversed : {n : ℕ} (xs ys : List T) → Script n (reverse xs) (reverse ys) → Script n xs ys
  unreversed {n} xs ys s =
      subst (λ l. Script n l ys) (reverse-reverse xs)
        (subst (λ l. Script n (reverse (reverse xs)) l) (reverse-reverse ys) (reversed s))

module _ {T : Type 0} (eq : T → T → Bool) where
  -- The distance, by the first elements of the lists.
  unfoldable pub distance : List T → List T → ℕ
  distance [] ys = length ys
  distance (x ∷ xs) [] = suc (length xs)
  distance (x ∷ xs) (y ∷ ys) =
      min (min (distance (x ∷ xs) ys + 1) (distance xs (y ∷ ys) + 1))
        (distance xs ys + differs eq x y)

module _ {T : Type 0} (eq : T → T → Bool) (eq_iff : (a b : T) → (eq a b ≡ true) ↔ (a ≡ b)) where
  distance-nil : (xs : List T) → distance eq xs [] ≡ length xs
  unfolding distance
  distance-nil [] = refl
  distance-nil (x ∷ xs) = refl

  distance-delete : (x : T) (xs ys : List T) → distance eq (x ∷ xs) ys ≤ distance eq xs ys + 1
  unfolding distance
  distance-delete x xs [] = omega (arith, distance-nil xs)
  distance-delete x xs (y ∷ ys) = omega arith

  distance-insert : (y : T) (xs ys : List T) → distance eq xs (y ∷ ys) ≤ distance eq xs ys + 1
  unfolding distance
  distance-insert y [] ys = omega arith
  distance-insert y (x ∷ xs) ys = omega arith

  -- No script makes fewer edits.
  pub distance-least : {n : ℕ} {xs ys : List T} → Script n xs ys → distance eq xs ys ≤ n
  unfolding distance
  distance-least done = omega arith
  distance-least (keep {a = a} s) = ground (arith, distance-least s, (eq_iff a a).1 refl)
  distance-least (replace s) = ground (arith, distance-least s)
  distance-least (delete {a = a} {xs = xs} {ys = ys} s) =
      omega (arith, distance-least s, distance-delete a xs ys)
  distance-least (insert {b = b} {xs = xs} {ys = ys} s) =
      omega (arith, distance-least s, distance-insert b xs ys)

  recount : {m n : ℕ} {xs ys : List T} → m ≡ n → Script m xs ys → Script n xs ys
  recount {xs = xs} {ys = ys} e s = subst (λ k. Script k xs ys) e s

  fewer : (m n : ℕ) {xs ys : List T} → Script m xs ys → Script n xs ys → Script (min m n) xs ys
  fewer m n s t = elim (Bool-cases (leb m n)) [
    | inl e ↦ recount (ground (arith, e)) s
    | inr e ↦ recount (ground (arith, e)) t
  ]

  step_both :
      (x y : T) {n : ℕ} {xs ys : List T}
      → Script n xs ys
      → Script (n + differs eq x y) (x ∷ xs) (y ∷ ys)
  step_both x y {n} {xs} {ys} s = elim (Bool-cases (eq x y)) [
    | inl e ↦ rw e (
        subst (λ z. Script (n + 0) (x ∷ xs) (z ∷ ys)) ((eq_iff x y).0 e)
          (recount (omega arith) (keep {a = x} s)))
    | inr e ↦ rw e (recount (omega arith) (replace {a = x} {b = y} s))
  ]

  -- A script makes as many.
  pub distance-Script : (xs ys : List T) → Script (distance eq xs ys) xs ys
  unfolding distance
  distance-Script [] [] = done
  distance-Script [] (y ∷ ys) = insert (distance-Script [] ys)
  distance-Script (x ∷ xs) [] = delete (recount (distance-nil xs) (distance-Script xs []))
  distance-Script (x ∷ xs) (y ∷ ys) =
      fewer _ _
        (fewer _ _ (recount (omega arith) (insert {b = y} (distance-Script (x ∷ xs) ys)))
          (recount (omega arith) (delete {a = x} (distance-Script xs (y ∷ ys)))))
        (step_both x y (distance-Script xs ys))
