-- ===== src/Inotify/Table.antt =====
-- The table of songs: the SQL commands that Inotify_DB_handler makes of its calls, and what they make of
-- the names in the table.
use pet_project.Base.{
  ℕ, ◌≤◌, ◌<◌, ◌≡◌, ◌≢◌, refl, Bool, false, ◌||◌, Option, some, List, [], ◌∷◌, ◌++◌, All,
  if◌then◌else◌, ◌>>=◌, inl, inr, sym, ◌∙◌, ap, append-nil, append_assoc, Option-cases,
}
use mathlib.Core.Option.{some_inj, none-ne-some}
use pet_project.Base.Text.{Text, text_eq}
use pet_project.Handler.Inotify.{insert_song, delete_song, handle}
use pet_project.Inotify.{quoted}

-- The table has a row with this name.
abbrev pub holds : List Text → Text → Bool
holds [] m = false
holds (n ∷ rows) m = text_eq n m || holds rows m

-- The SQL commands that the handler makes of its calls, in their order.
unfoldable pub commands : (Text → ℕ) → Bool → List (List Text) → Option (List Text)
unfolding handle
commands hash truncated [] = some []
commands hash truncated (c ∷ cs) = do
  x ← handle hash truncated c
  rest ← commands hash truncated cs
  some (x.1 ++ rest)

-- The names in the table after the commands, for what the database makes of one.
unfoldable pub execute_all : (Text → List Text → List Text) → List Text → List Text → List Text
execute_all execute [] rows = rows
execute_all execute (c ∷ cs) rows = execute_all execute cs (execute c rows)

-- Printable characters other than the apostrophe and the backslash, which an SQL command holds as they
-- are between two apostrophes.
abbrev pub IsPlain : Text → Type 0
IsPlain t = All (λ c. (32 ≤ c) × (c < 127) × (c ≢ b'\'') × (c ≢ b'\\')) t

-- What PostgreSQL makes of the two commands when it carries them out, for names that are plain.
pub record Executes (hash : Text → ℕ) (execute : Text → List Text → List Text) : Type 0 where
  pub inserts :
      (folder name : Text) (rows : List Text) (m : Text)
      → IsPlain folder
      → IsPlain name
      → holds (execute (insert_song hash folder (quoted name)) rows) m
        ≡ (text_eq name m || holds rows m)
  pub deletes :
      (name : Text) (rows : List Text) (m : Text)
      → IsPlain name
      → holds (execute (delete_song (quoted name)) rows) m
        ≡ (if text_eq name m then false else holds rows m)

pub commands-append :
    (hash : Text → ℕ) (truncated : Bool) (cs : List (List Text)) (c xs ys : List Text) (b : Bool)
    → commands hash truncated cs ≡ some xs
    → handle hash truncated c ≡ some (b, ys)
    → commands hash truncated (cs ++ c ∷ []) ≡ some (xs ++ ys)
unfolding commands
commands-append hash truncated [] c xs ys b h k =
    rw k (ap some (append-nil ys ∙ ap (λ zs. zs ++ ys) (some_inj.0 h)))
commands-append hash truncated (d ∷ cs) c xs ys b h k =
    elim (Option-cases (handle hash truncated d)) [
      | inl n ↦ absurd (none-ne-some xs (rw n at h))
      | inr (x, q) ↦ elim (Option-cases (commands hash truncated cs)) [
        | inl n ↦ absurd (none-ne-some xs (rw (q, n) at h))
        | inr (zs, y) ↦
            rw (q, commands-append hash truncated cs c zs ys b y k)
              (ap some
                (sym (append_assoc x.1 zs ys) ∙ ap (λ us. us ++ ys) (some_inj.0 (rw (q, y) at h))))
      ]
    ]

pub execute_all-append :
    (execute : Text → List Text → List Text) (cs : List Text) (c : Text) (rows : List Text)
    → execute_all execute (cs ++ c ∷ []) rows ≡ execute c (execute_all execute cs rows)
unfolding execute_all
execute_all-append execute [] c rows = refl
execute_all-append execute (d ∷ cs) c rows = execute_all-append execute cs c (execute d rows)
