-- ===== src/Database/Result/Container.antt =====
-- The table that a result is read into.
use pet_project.Base.{
  ℕ, zero, suc, ◌+◌, ◌≡◌, ◌<◌, refl, Option, some, List, arith, length, get_elem?, All, tabulate,
  length-tabulate, ap, ap₂, ◌∙◌, ◌>>=◌,
}
use pet_project.Base.Text.{Text}
use pet_project.Database.Result.{
  Cell, cell, Container, PgResult, field_name, field_value, get_result_container,
}

-- Every row has `n` cells, and each cell says its length.
pub record IsRow (n : ℕ) (row : List Cell) : Type 0 where
  pub width : length row ≡ n
  pub measured : All (λ (c : Cell). c.len ≡ length c.text) row

abbrev pub IsTable : ℕ → Container → Type 0
IsTable n rows = All (IsRow n) rows

measured_tabulate :
    (i n : ℕ) (f : ℕ → Text)
    → All (λ (c : Cell). c.len ≡ length c.text) (tabulate i n (λ j. cell (f j)))
unfolding tabulate
measured_tabulate i zero f = tt
measured_tabulate i (suc n) f = (refl, measured_tabulate (suc i) n f)

IsRow-tabulate : (n : ℕ) (f : ℕ → Text) → IsRow n (tabulate 0 n (λ j. cell (f j)))
IsRow-tabulate n f = record {
  width = length-tabulate 0 n (λ j. cell (f j));
  measured = measured_tabulate 0 n f;
}

IsTable-tabulate :
    (i k n : ℕ) (f : ℕ → ℕ → Text)
    → IsTable n (tabulate i k (λ a. tabulate 0 n (λ b. cell (f a b))))
unfolding tabulate
IsTable-tabulate i zero n f = tt
IsTable-tabulate i (suc k) n f = (IsRow-tabulate n (f i), IsTable-tabulate (suc i) k n f)

-- The table has a header and a row for each tuple, all of as many cells as the result has columns,
-- and each cell comes with the length of its text.
pub get_result_container-IsTable :
    (r : PgResult)
    → IsTable r.n_fields (get_result_container r)
      × (length (get_result_container r) ≡ suc r.n_tuples)
unfolding get_result_container
get_result_container-IsTable r = (
  (
    IsRow-tabulate r.n_fields (field_name r.result),
    IsTable-tabulate 0 r.n_tuples r.n_fields (field_value r.result),
  ),
  ap suc (length-tabulate 0 r.n_tuples _),
)

get_elem?-tabulate {ℓ} :
    {A : Type ℓ} (i n j : ℕ) (f : ℕ → A) → j < n → get_elem? (tabulate i n f) j ≡ some (f (i + j))
unfolding tabulate
get_elem?-tabulate i zero j f h = absurd (omega arith)
get_elem?-tabulate i (suc n) zero f h = ap (λ k. some (f k)) (omega arith)
get_elem?-tabulate i (suc n) (suc j) f h =
    get_elem?-tabulate (suc i) n j f (omega arith) ∙ ap (λ k. some (f k)) (omega arith)

abbrev pub cell_at : Container → ℕ → ℕ → Option Cell
cell_at rows i j = do row ← get_elem? rows i; get_elem? row j

-- Below the header, the cell of tuple `i` and column `j` is the value that libpq has there.
pub cell_at_container :
    (r : PgResult) (i j : ℕ)
    → i < r.n_tuples
    → j < r.n_fields
    → cell_at (get_result_container r) (suc i) j ≡ some (cell (field_value r.result i j))
unfolding get_result_container
cell_at_container r i j hi hj =
    rw
      (get_elem?-tabulate 0 r.n_tuples i
        (λ i. tabulate 0 r.n_fields (λ j. cell (field_value r.result i j))) hi)
      (rw (get_elem?-tabulate 0 r.n_fields j (λ j. cell (field_value r.result (0 + i) j)) hj)
        (ap₂ (λ a b. some (cell (field_value r.result a b))) (omega arith) (omega arith)))
