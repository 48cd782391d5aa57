-- ===== src/Handler/Tables.antt =====
-- Handler/src/handler.cpp, Server_HTTP_handler::forming_tables_helper: a table as text in columns.
-- `none` is undefined behaviour, or the exception of a string or vector of a length below zero.
pub mod Aligned
use pet_project.Base.{
  ℕ, zero, suc, ◌+◌, ◌-◌, max, Option, none, some, List, [], ◌∷◌, ◌++◌, length, get_elem?, ltb,
  if◌then◌else◌, ◌>>=◌,
}
use pet_project.Base.Text.{Text, spaces}
use pet_project.Database.Result.{Cell, Container}

-- The inner loop over the rows, for column `i`: the greatest length from `acc` on.
unfoldable pub column_max : ℕ → Container → ℕ → Option ℕ
column_max i [] acc = some acc
column_max i (row ∷ rows) acc = do c ← get_elem? row i; column_max i rows (max acc c.len)

-- vec_max_len from column `i` on, for the `n` columns left
unfoldable pub max_lengths : ℕ → ℕ → Container → Option (List ℕ)
unfolding column_max
max_lengths i zero rows = some []
max_lengths i (suc n) rows = do
  m ← column_max i rows 0
  ms ← max_lengths (suc i) n rows
  some (m ∷ ms)

-- std::string(w - len + 2, ' '), on an unsigned type: a count below zero wraps to one that no string
-- can have, and the constructor throws.
unfoldable pub padding : ℕ → ℕ → Option Text
padding w len = if ltb (w + 2) len then none else some (spaces (w + 2 - len))

-- One row from column `j` on: the padded columns, then the last one and a line break.
unfoldable pub row_text : ℕ → List ℕ → List Cell → Option Text
unfolding padding
row_text j [] row = do c ← get_elem? row j; some (c.text ++ (b'\n' ∷ []))
row_text j (w ∷ ws) row = do
  c ← get_elem? row j
  pad ← padding w c.len
  rest ← row_text (suc j) ws row
  some (c.text ++ (pad ++ rest))

unfoldable pub rows_text : List ℕ → Container → Option Text
unfolding row_text
rows_text ws [] = some []
rows_text ws (row ∷ rows) = do t ← row_text 0 ws row; rest ← rows_text ws rows; some (t ++ rest)

-- What is appended to req_info[REQ_RESULT]. The first row gives the number of columns; with none of
-- them `size() - 1` wraps and the vector's constructor throws.
unfoldable pub forming_tables_helper : Container → Option Text
unfolding max_lengths rows_text
forming_tables_helper [] = none
forming_tables_helper (row ∷ rows) = elim (length row) [
  | zero ↦ none
  | suc n ↦ do ws ← max_lengths 0 n (row ∷ rows); rows_text ws (row ∷ rows)
]
