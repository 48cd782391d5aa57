-- ===== src/Handler/Tables/Aligned.antt =====
-- Where the cells stand in a formatted table.
use Prim.Native.Nat.add
use pet_project.Base.{
  ℕ, zero, suc, ◌+◌, ◌≤◌, ◌<◌, ◌≡◌, refl, max, some, List, [], ◌∷◌, ◌++◌, arith, length, get_elem?,
  get_elem?_total, length-append, length-replicate, All, append_assoc, append-nil, sym, ap, subst,
  ◌-◌, ◌∙◌,
}
use mathlib.Core.Option.{some-injective}
use pet_project.Base.Text.{Text, spaces}
use pet_project.Database.Result.{Cell, Container}
use pet_project.Database.Result.Container.{IsRow, IsTable}
use pet_project.Handler.Tables.{
  column_max, max_lengths, padding, row_text, rows_text, forming_tables_helper,
}

-- The text `s` stands in `t` behind `p` bytes.
abbrev pub Stands : Text → ℕ → Text → Type 0
Stands t p s = (before : Text) × (after : Text) × (t ≡ before ++ (s ++ after)) × (length before ≡ p)

-- Where column `k` starts, when the columns before it have the lengths `ws` and two spaces between.
abbrev pub position : ℕ → List ℕ → ℕ
position zero ws = 0
position (suc k) [] = 0
position (suc k) (w ∷ ws) = w + 2 + position k ws

-- What stands for a cell in column `k`: its text with spaces up to the next column, or, in the last one,
-- with the line break.
abbrev pub cell_text : ℕ → List ℕ → Text → Text
cell_text zero [] t = t ++ b'\n' ∷ []
cell_text zero (w ∷ ws) t = t ++ spaces (w + 2 - length t)
cell_text (suc k) [] t = []
cell_text (suc k) (w ∷ ws) t = cell_text k ws t

-- Every cell of the row stands at its column's position in the line, with what follows it up to the next
-- one, and the line ends with that of the last column.
abbrev pub IsLine : List ℕ → List Cell → Text → Type 0
IsLine ws row line =
    ((k : ℕ) (c : Cell)
      → k ≤ length ws
      → get_elem? row k ≡ some c
      → Stands line (position k ws) (cell_text k ws c.text))
    × ((c : Cell)
        → get_elem? row (length ws) ≡ some c
        → (before : Text) × (line ≡ before ++ (c.text ++ b'\n' ∷ []))
          × (length before ≡ position (length ws) ws))

-- The text is one line for each row.
abbrev pub AreLines : List ℕ → Container → Text → Type 0
AreLines ws [] t = t ≡ []
AreLines ws (row ∷ rows) t =
    (line : Text) × (rest : Text) × (t ≡ line ++ rest) × IsLine ws row line × AreLines ws rows rest

-- From column `j` on the row has a cell for each width and one more, none longer than its width.
abbrev Fits : ℕ → List ℕ → List Cell → Type 0
Fits j [] row = (c : Cell) × (get_elem? row j ≡ some c)
Fits j (w ∷ ws) row = (c : Cell) × (get_elem? row j ≡ some c) × (c.len ≤ w) × Fits (suc j) ws row

module _ {ℓ} {A : Type ℓ} where
  All-get_elem? {κ} :
      (P : A → Type κ) (xs : List A) (i : ℕ) (a : A) → All P xs → get_elem? xs i ≡ some a → P a
  All-get_elem? P [] i a h e = absurd (ground arith)
  All-get_elem? P (x ∷ xs) zero a h e = subst P (some-injective x a e) h.0
  All-get_elem? P (x ∷ xs) (suc i) a h e = All-get_elem? P xs i a h.1 e

  All-zip {κ μ ν} :
      (P : A → Type κ) (Q : A → Type μ) (R : A → Type ν) (xs : List A)
      → ((a : A) → P a → Q a → R a)
      → All P xs
      → All Q xs
      → All R xs
  All-zip P Q R [] f h k = tt
  All-zip P Q R (x ∷ xs) f h k = (f x h.0 k.0, All-zip P Q R xs f h.1 k.1)

-- The maximum is found, and bounds the column's cell in every row.
column_max_lem :
    (i n : ℕ) (rows : Container) (acc : ℕ)
    → IsTable n rows
    → i < n
    → (m : ℕ) × (column_max i rows acc ≡ some m)
      × (acc ≤ m)
      × All (λ row. (c : Cell) × (get_elem? row i ≡ some c) × (c.len ≤ m)) rows
unfolding column_max
column_max_lem i n [] acc h lt = (acc, refl, omega arith, tt)
column_max_lem i n (row ∷ rows) acc (r, h) lt =
    let (c, e) = get_elem?_total row i (omega (arith, r.width)) in
    let (m, p, q, all) = column_max_lem i n rows (max acc c.len) h lt in
    (m, rw (e, column_max) p, omega arith, ((c, e, omega arith), all))

max_lengths_lem :
    (i n k : ℕ) (rows : Container)
    → IsTable k rows
    → i + n < k
    → (ws : List ℕ) × (max_lengths i n rows ≡ some ws) × (length ws ≡ n) × All (Fits i ws) rows
unfolding max_lengths
max_lengths_lem i zero k rows h lt = (
  [],
  refl,
  refl,
  All-zip (IsRow k) (IsRow k) (Fits i []) rows
      (λ row r _. get_elem?_total row i (omega (arith, r.width))) h h,
)
max_lengths_lem i (suc n) k rows h lt =
    let (m, p, _, bound) = column_max_lem i k rows 0 h (omega arith) in
    let (ws, q, l, fits) = max_lengths_lem (suc i) n k rows h (omega arith) in
    (
      m ∷ ws,
      rw (p, q),
      ap suc l,
      All-zip _ (Fits (suc i) ws) (Fits i (m ∷ ws)) rows (λ row b f. (b.0, b.1, b.2, f)) bound fits,
    )

padding_lem : (w len : ℕ) → len ≤ w → padding w len ≡ some (spaces (w + 2 - len))
unfolding padding
padding_lem w len h = ground arith

row_text_total :
    (j : ℕ) (ws : List ℕ) (row : List Cell)
    → Fits j ws row
    → (t : Text) × (row_text j ws row ≡ some t)
unfolding row_text
row_text_total j [] row (c, e) = (c.text ++ (b'\n' ∷ []), rw e)
row_text_total j (w ∷ ws) row (c, e, le, f) =
    let (t, p) = row_text_total (suc j) ws row f in
    (c.text ++ (spaces (w + 2 - c.len) ++ t), rw (e, padding_lem w c.len le, p))

at_zero :
    (row : List Cell) (j : ℕ) {c : Cell} → get_elem? row (j + 0) ≡ some c → get_elem? row j ≡ some c
at_zero row j {c} g = subst (λ i. get_elem? row i ≡ some c) (omega arith) g

at_suc :
    (row : List Cell) (j k : ℕ) {c : Cell}
    → get_elem? row (j + suc k) ≡ some c
    → get_elem? row (suc j + k) ≡ some c
at_suc row j k {c} g = subst (λ i. get_elem? row i ≡ some c) (omega arith) g

row_text_last :
    (j : ℕ) (row : List Cell) (c : Cell)
    → get_elem? row j ≡ some c
    → row_text j [] row ≡ some (c.text ++ (b'\n' ∷ []))
unfolding row_text
row_text_last j row c g = rw g

row_text_step :
    (j w : ℕ) (ws : List ℕ) (row : List Cell) (d : Cell) (r : Text)
    → get_elem? row j ≡ some d
    → d.len ≤ w
    → row_text (suc j) ws row ≡ some r
    → row_text j (w ∷ ws) row ≡ some (d.text ++ (spaces (w + 2 - d.len) ++ r))
unfolding row_text
row_text_step j w ws row d r p q e = rw (p, padding_lem w d.len q, e)

-- A cell's text and the spaces behind it fill the column.
filled :
    (d : Cell) (w : ℕ) (b : Text)
    → d.len ≤ w
    → d.len ≡ length d.text
    → length (d.text ++ (spaces (w + 2 - d.len) ++ b)) ≡ w + 2 + length b
filled d w b q m = omega (
  arith,
  length-append d.text (spaces (w + 2 - d.len) ++ b),
  length-append (spaces (w + 2 - d.len)) b,
  length-replicate {A = ℕ} (w + 2 - d.len) b' ',
)

row_text-Stands :
    (j : ℕ) (ws : List ℕ) (row : List Cell) (t : Text) (k : ℕ) (c : Cell)
    → Fits j ws row
    → All (λ (d : Cell). d.len ≡ length d.text) row
    → row_text j ws row ≡ some t
    → k ≤ length ws
    → get_elem? row (j + k) ≡ some c
    → Stands t (position k ws) (cell_text k ws c.text)
row_text-Stands j [] row t zero c f m e le g = (
  [],
  [],
  some-injective t _ (sym e ∙ row_text_last j row c (at_zero row j g)) ∙ sym (append-nil _),
  refl,
)
row_text-Stands j [] row t (suc k) c f m e le g = absurd (omega arith)
row_text-Stands j (w ∷ ws) row t zero c (d, p, q, f) m e le g =
    let (r, er) = row_text_total (suc j) ws row f in
    let same : d ≡ c = some-injective d c (sym p ∙ at_zero row j g) in
    (
      [],
      r,
      some-injective t _ (sym e ∙ row_text_step j w ws row d r p q er)
          ∙ ap (λ n. d.text ++ (spaces (w + 2 - n) ++ r)) (All-get_elem? _ row j d m p)
          ∙ sym (append_assoc d.text (spaces (w + 2 - length d.text)) r)
          ∙ ap (λ (x : Cell). (x.text ++ spaces (w + 2 - length x.text)) ++ r) same,
      refl,
    )
row_text-Stands j (w ∷ ws) row t (suc k) c (d, p, q, f) m e le g =
    let (r, er) = row_text_total (suc j) ws row f in
    let (before, after, split, l) =
      row_text-Stands (suc j) ws row r k c f m er (omega arith) (at_suc row j k g) in
    let pad : Text = spaces (w + 2 - d.len) in
    (
      d.text ++ (pad ++ before),
      after,
      some-injective t _ (sym e ∙ row_text_step j w ws row d r p q er)
          ∙ ap (λ x. d.text ++ (pad ++ x)) split
          ∙ simp append_assoc,
      omega (arith, filled d w before q (All-get_elem? _ row j d m p), l),
    )

-- The last cell and the line break end the line.
row_text_end :
    (j : ℕ) (ws : List ℕ) (row : List Cell) (t : Text) (c : Cell)
    → Fits j ws row
    → All (λ (d : Cell). d.len ≡ length d.text) row
    → row_text j ws row ≡ some t
    → get_elem? row (j + length ws) ≡ some c
    → (before : Text) × (t ≡ before ++ (c.text ++ b'\n' ∷ []))
      × (length before ≡ position (length ws) ws)
row_text_end j [] row t c f m e g =
    ([], some-injective t _ (sym e ∙ row_text_last j row c (at_zero row j g)), refl)
row_text_end j (w ∷ ws) row t c (d, p, q, f) m e g =
    let (r, er) = row_text_total (suc j) ws row f in
    let (before, split, l) = row_text_end (suc j) ws row r c f m er (at_suc row j (length ws) g) in
    let pad : Text = spaces (w + 2 - d.len) in
    (
      d.text ++ (pad ++ before),
      some-injective t _ (sym e ∙ row_text_step j w ws row d r p q er)
          ∙ ap (λ x. d.text ++ (pad ++ x)) split
          ∙ simp append_assoc,
      omega (arith, filled d w before q (All-get_elem? _ row j d m p), l),
    )

rows_text_lem :
    (ws : List ℕ) (n : ℕ) (rows : Container)
    → IsTable n rows
    → All (Fits 0 ws) rows
    → (t : Text) × (rows_text ws rows ≡ some t) × AreLines ws rows t
unfolding rows_text
rows_text_lem ws n [] h f = ([], refl, refl)
rows_text_lem ws n (row ∷ rows) (r, h) (fr, f) =
    let (line, e) = row_text_total 0 ws row fr in
    let (rest, p, lines) = rows_text_lem ws n rows h f in
    (
      line ++ rest,
      rw (e, p),
      (
        line,
        rest,
        refl,
        (
          λ k c le g. row_text-Stands 0 ws row line k c fr r.measured e le (rw (add.zero k) g),
          λ c g. row_text_end 0 ws row line c fr r.measured e (rw (add.zero (length ws)) g),
        ),
        lines,
      ),
    )

-- For a table with a row, and as many cells in each row as there are columns, at least one: the
-- helper does not fail, and its text is a line for each row, in their order. In every line each cell
-- starts at the position of its column, behind the columns before it, each as wide as its width in
-- `ws` and two; spaces fill the column behind the cell, and the last cell is followed by the line
-- break, which ends the line.
pub forming_tables_helper-AreLines :
    (n : ℕ) (row : List Cell) (rows : Container)
    → IsTable (suc n) (row ∷ rows)
    → (t : Text) × (ws : List ℕ) × (forming_tables_helper (row ∷ rows) ≡ some t)
      × (length ws ≡ n)
      × AreLines ws (row ∷ rows) t
unfolding forming_tables_helper
forming_tables_helper-AreLines n row rows h =
    let (ws, p, l, fits) = max_lengths_lem 0 n (suc n) (row ∷ rows) h (omega arith) in
    let (t, q, lines) = rows_text_lem ws (suc n) (row ∷ rows) h fits in
    (t, ws, rw (h.0.width, p, forming_tables_helper) q, l, lines)
