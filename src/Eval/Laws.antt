-- ===== src/Eval/Laws.antt =====
-- What `levenshtein` and the checks of crates/ocr-eval/src/lib.rs compute.
use mathlib.Core.Path.{ap₂}
use document_intelligence.Base.{
  ℕ, suc, ◌+◌, ◌≤◌, ◌≡◌, ◌↔◌, refl, sym, ap, subst, ◌∙◌, Bool, true, List, [], ◌∷◌, ◌++◌, arith,
  leb, length, if-holds, append_nil,
}
use document_intelligence.Eval.Levenshtein.{
  entries, last_row, counting, last_entry, table, levenshtein,
}
use document_intelligence.Eval.Scripts.{
  Script, swap, reverse, unreversed, reversed, distance, distance-least, distance-Script,
}

append_one : {T : Type 0} (xs : List T) (x : T) (ys : List T) → (xs ++ x ∷ []) ++ ys ≡ xs ++ x ∷ ys
append_one [] x ys = refl
append_one (z ∷ xs) x ys = ap (λ l. z ∷ l) (append_one xs x ys)

module _ {T : Type 0} (eq : T → T → Bool) where
  -- The row of the table for the rows read so far, from the columns read on; what was read stands
  -- last first.
  abbrev row_of : List T → List T → List T → List ℕ
  row_of pre seen [] = distance eq pre seen ∷ []
  row_of pre seen (c ∷ cs) = distance eq pre seen ∷ row_of pre (c ∷ seen) cs

  abbrev rest_of : List T → List T → List T → List ℕ
  rest_of pre seen [] = []
  rest_of pre seen (c ∷ cs) = row_of pre (c ∷ seen) cs

  row_of-split :
      (pre seen cs : List T) → row_of pre seen cs ≡ distance eq pre seen ∷ rest_of pre seen cs
  row_of-split pre seen [] = refl
  row_of-split pre seen (c ∷ cs) = refl

  entries-row_of :
      (row : T) (pre seen cs : List T)
      → entries eq row (distance eq (row ∷ pre) seen) (row_of pre seen cs) cs
        ≡ rest_of (row ∷ pre) seen cs
  unfolding entries distance
  entries-row_of row pre seen [] = refl
  entries-row_of row pre seen (c ∷ cs) =
      let d : ℕ = distance eq (row ∷ pre) (c ∷ seen) in
      ap (λ l. entries eq row (distance eq (row ∷ pre) seen) (distance eq pre seen ∷ l) (c ∷ cs))
        (row_of-split pre (c ∷ seen) cs)
      ∙ ap (λ l. d ∷ entries eq row d l cs) (sym (row_of-split pre (c ∷ seen) cs))
      ∙ ap (λ l. d ∷ l) (entries-row_of row pre (c ∷ seen) cs)
      ∙ sym (row_of-split (row ∷ pre) (c ∷ seen) cs)

  counting-row_of :
      (seen cs : List T) (n : ℕ) → length seen ≡ n → counting n (length cs) ≡ row_of [] seen cs
  unfolding distance
  counting-row_of seen [] n h = ap (λ k. k ∷ []) (sym h)
  counting-row_of seen (c ∷ cs) n h =
      ap₂ (λ a b. a ∷ b) (sym h) (counting-row_of (c ∷ seen) cs (n + 1) (omega (arith, h)))

  last_row-row_of :
      (n : ℕ) (rows pre cs : List T)
      → length pre ≡ n
      → last_row eq n rows (row_of pre [] cs) cs ≡ row_of (reverse rows ++ pre) [] cs
  unfolding last_row distance
  last_row-row_of n [] pre cs h = refl
  last_row-row_of n (row ∷ rows) pre cs h =
      let first : n + 1 ≡ suc (length pre) = omega (arith, h) in
      let row' : (n + 1) ∷ entries eq row (n + 1) (row_of pre [] cs) cs ≡ row_of (row ∷ pre) [] cs =
        ap (λ k. k ∷ entries eq row k (row_of pre [] cs) cs) first
        ∙ ap (λ l. suc (length pre) ∷ l) (entries-row_of row pre [] cs)
        ∙ sym (row_of-split (row ∷ pre) [] cs) in
      ap (λ l. last_row eq (n + 1) rows l cs) row'
      ∙ last_row-row_of (n + 1) rows (row ∷ pre) cs (omega (arith, h))
      ∙ ap (λ l. row_of l [] cs) (sym (append_one (reverse rows) row pre))

  last_entry-row_of :
      (pre seen cs : List T)
      → last_entry (row_of pre seen cs) ≡ distance eq pre (reverse cs ++ seen)
  last_entry-row_of pre seen [] = refl
  last_entry-row_of pre seen (c ∷ cs) =
      ap (λ l. last_entry (distance eq pre seen ∷ l)) (row_of-split pre (c ∷ seen) cs)
      ∙ ap last_entry (sym (row_of-split pre (c ∷ seen) cs))
      ∙ last_entry-row_of pre (c ∷ seen) cs
      ∙ ap (distance eq pre) (sym (append_one (reverse cs) c seen))

  table-distance :
      (rows columns : List T) → table eq rows columns ≡ distance eq (reverse rows) (reverse columns)
  unfolding table
  table-distance rows columns =
      ap (λ l. last_entry (last_row eq 0 rows l columns)) (counting-row_of [] columns 0 refl)
      ∙ ap last_entry (last_row-row_of 0 rows [] columns refl)
      ∙ last_entry-row_of (reverse rows ++ []) [] columns
      ∙ ap₂ (distance eq) (append_nil (reverse rows)) (append_nil (reverse columns))

-- A number of edits is the least if some script makes so many, and no script makes fewer.
abbrev pub IsLeastEdits : {T : Type 0} → ℕ → List T → List T → Type 0
IsLeastEdits n xs ys = Script n xs ys × ((m : ℕ) → Script m xs ys → n ≤ m)

module _ {T : Type 0} (eq : T → T → Bool) (eq_iff : (a b : T) → (eq a b ≡ true) ↔ (a ≡ b)) where
  table-IsLeastEdits : (rows columns : List T) → IsLeastEdits (table eq rows columns) rows columns
  table-IsLeastEdits rows columns =
      let same = table-distance eq rows columns in
      (
        unreversed rows columns (
            subst (λ n. Script n (reverse rows) (reverse columns)) (sym same)
              (distance-Script eq eq_iff (reverse rows) (reverse columns))),
        λ m s. omega (arith, same, distance-least eq eq_iff (reversed s)),
      )

  -- The two-row computation gives the least number of deletions, insertions and replacements that
  -- turn one list into the other, for a test of equality that says what is equal.
  pub levenshtein-IsLeastEdits :
      (left right : List T) → IsLeastEdits (levenshtein eq left right) left right
  unfolding levenshtein
  levenshtein-IsLeastEdits left right =
      let there = table-IsLeastEdits left right in
      let back = table-IsLeastEdits right left in
      if-holds (λ n. IsLeastEdits n left right) (leb (length right) (length left))
        (table eq left right) (table eq right left) there (swap back.0, λ m s. back.1 m (swap s))
