-- ===== src/Eval/Levenshtein.antt =====
-- `levenshtein` of crates/ocr-eval/src/lib.rs: two rows of a table, of which the second is filled
-- from the first, from left to right.
use document_intelligence.Base.{
  ℕ, zero, suc, ◌+◌, min, Bool, List, [], ◌∷◌, if◌then◌else◌, leb, length,
}

-- `(from..=from + count)`
abbrev pub counting : ℕ → ℕ → List ℕ
counting from zero = from ∷ []
counting from (suc count) = from ∷ counting (from + 1) count

-- `previous[columns.len()]`, the last entry
abbrev pub last_entry : List ℕ → ℕ
last_entry [] = 0
last_entry (v ∷ []) = v
last_entry (v ∷ w ∷ vs) = last_entry (w ∷ vs)

module _ {T : Type 0} (eq : T → T → Bool) where
  -- `usize::from(row != column)`
  abbrev pub differs : T → T → ℕ
  differs row column = if eq row column then 0 else 1

  -- The loop over the columns: `left` is `current[column_index]`, and the list is `previous` from
  -- `column_index` on. The entries of `current` that are written.
  unfoldable pub entries : T → ℕ → List ℕ → List T → List ℕ
  entries row left (diagonal ∷ above ∷ previous) (column ∷ columns) =
      let entry = min (min (left + 1) (above + 1)) (diagonal + differs row column) in
      entry ∷ entries row entry (above ∷ previous) columns
  entries row left previous columns = []

  -- The loop over the rows: each leaves its `current` as the next `previous`.
  unfoldable pub last_row : ℕ → List T → List ℕ → List T → List ℕ
  unfolding entries
  last_row row_index [] previous columns = previous
  last_row row_index (row ∷ rows) previous columns =
      last_row (row_index + 1) rows ((row_index + 1) ∷ entries row (row_index + 1) previous columns)
        columns

  unfoldable pub table : List T → List T → ℕ
  unfolding last_row
  table rows columns = last_entry (last_row 0 rows (counting 0 (length columns)) columns)

  unfoldable pub levenshtein : List T → List T → ℕ
  unfolding table
  levenshtein left right =
      if leb (length right) (length left) then table left right else table right left
