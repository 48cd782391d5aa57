-- ===== src/Handler/Dir/FilesTable.antt =====
-- The table of the files in the directory, line by line.
use pet_project.Base.{
  ℕ, ◌+◌, ◌-◌, ◌≤◌, ◌≡◌, refl, some, List, [], ◌∷◌, ◌++◌, arith, length, length-append,
  length-replicate, append_assoc,
}
use pet_project.Base.Text.{Text, lit, spaces}
use pet_project.Base.Decimal.{to_string}
use pet_project.Handler.Dir.{number_of_digits, gap, files_lines, first_column, table_of}
use pet_project.Handler.Dir.Digits.{number_of_digits-to_string, number_of_digits_mono}

-- The text `t` is `s` behind `p` bytes.
abbrev pub EndsAt : Text → ℕ → Text → Type 0
EndsAt t p s = (before : Text) × (t ≡ before ++ s) × (length before ≡ p)

abbrev pub StartsWith : Text → Text → Type 0
StartsWith t s = (after : Text) × (t ≡ s ++ after)

-- One line for each name from position `pos` on: the position, then the name behind `w` bytes and a
-- space.
abbrev pub AreEntries : ℕ → ℕ → List Text → Text → Type 0
AreEntries w pos [] t = t ≡ []
AreEntries w pos (name ∷ names) t =
    (line : Text) × (rest : Text) × (t ≡ line ++ rest)
    × StartsWith line (to_string pos)
    × EndsAt line (w + 1) (name ++ (b'\n' ∷ []))
    × AreEntries w (pos + 1) names rest

gap_lem : (w used : ℕ) → used ≤ w → gap w used ≡ some (spaces (w + 1 - used))
unfolding gap
gap_lem w used h = ground arith

before_name :
    (w pos : ℕ)
    → number_of_digits pos ≤ w
    → length (to_string pos ++ spaces (w + 1 - number_of_digits pos)) ≡ w + 1
before_name w pos h = omega (
  arith,
  length-append (to_string pos) (spaces (w + 1 - number_of_digits pos)),
  length-replicate {A = ℕ} (w + 1 - number_of_digits pos) b' ',
  number_of_digits-to_string pos,
)

first_column_ge : (n : ℕ) → (number_of_digits n ≤ first_column n) × (3 ≤ first_column n)
unfolding first_column
first_column_ge n = (omega arith, omega arith)

files_lines_lem :
    (w n pos : ℕ) (names : List Text)
    → number_of_digits n ≤ w
    → pos + length names ≤ n + 1
    → (t : Text) × (files_lines w pos names ≡ some t) × AreEntries w pos names t
unfolding files_lines
files_lines_lem w n pos [] h le = ([], refl, refl)
files_lines_lem w n pos (name ∷ names) h le =
    let (rest, e, lines) = files_lines_lem w n (pos + 1) names h (omega arith) in
    let small : number_of_digits pos ≤ w =
      omega (arith, number_of_digits_mono pos n (omega arith)) in
    let pad : Text = spaces (w + 1 - number_of_digits pos) in
    (
      to_string pos ++ (pad ++ (name ++ (b'\n' ∷ rest))),
      rw (gap_lem w _ small, e),
      (
        to_string pos ++ (pad ++ (name ++ (b'\n' ∷ []))),
        rest,
        simp append_assoc,
        (pad ++ (name ++ (b'\n' ∷ [])), refl),
        (to_string pos ++ pad, simp append_assoc, before_name w pos small),
        lines,
      ),
    )

-- The table never fails, whatever the number of names: it is a header in which "File name" stands
-- behind the first column and a space, and a line for each name in which the position, counted from
-- 1, stands at the start and the name at that same place. The first column has room for the longest
-- position.
pub table_of-AreEntries :
    (names : List Text)
    → let w = first_column (length names) in
      (header : Text) × (lines : Text) × (table_of names ≡ some (header ++ lines))
      × (header ≡ lit "Pos" ++ (spaces (w + 1 - 3) ++ lit "File name\n"))
      × AreEntries w 1 names lines
unfolding table_of
table_of-AreEntries names =
    let w : ℕ = first_column (length names) in
    let (lines, e, entries) =
      files_lines_lem w (length names) 1 names (first_column_ge (length names)).0 (omega arith) in
    (
      lit "Pos" ++ (spaces (w + 1 - 3) ++ lit "File name\n"),
      lines,
      rw (gap_lem w 3 (first_column_ge (length names)).1, e) (simp append_assoc),
      refl,
      entries,
    )
