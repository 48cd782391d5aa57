-- ===== src/Logger/Newest.antt =====
-- Logger::open_file: the newest file of the folder.
use mathlib.Core.List.{cons≢nil, not-mem-nil, mem-cons_of_mem, Mem-prop, eq-or-mem_of_mem-cons}
use mathlib.Core.Logic.Or
use pet_project.Base.{
  ℕ, ◌+◌, ◌≤◌, ◌≡◌, ◌≢◌, ◌↔◌, ◌⊎◌, refl, inl, inr, true, false, none, some, List, [], ◌∷◌, ltb,
  length, All, Mem, mem-cons_self, arith, if◌then◌else◌, ◌>>=◌, Bool-cases, sym, ap, ◌∙◌, subst,
}
use pet_project.Base.Text.{Text}
use pet_project.Logger.{
  LogEntry, LogFile, appended, created, regular_entries, max_element_from, max_element, has_room,
  new_log_file, open_in,
}

-- No entry is newer.
abbrev pub IsNewest : LogEntry → List LogEntry → Type 0
IsNewest last es = All (λ (e : LogEntry). e.last_write_time ≤ last.last_write_time) es

-- `last` stands behind `best` or is it, and no entry is newer.
abbrev Newest : LogEntry → List LogEntry → LogEntry → Type 0
Newest best es last = Mem last (best ∷ es) × IsNewest last (best ∷ es)

Mem-skip :
    (x y : LogEntry) (es : List LogEntry) (z : LogEntry) → Mem z (x ∷ es) → Mem z (x ∷ y ∷ es)
Mem-skip x y es z m =
    Or.elim Mem-prop (eq-or-mem_of_mem-cons m)
      (λ e. subst (λ w. Mem w (x ∷ y ∷ es)) (sym e) mem-cons_self)
      (λ n. mem-cons_of_mem x (mem-cons_of_mem y n))

newer_entry :
    (best e : LogEntry) (es : List LogEntry)
    → ltb best.last_write_time e.last_write_time ≡ true
    → max_element_from e es ≡ max_element_from best (e ∷ es)
unfolding max_element_from
newer_entry best e es y = ground (arith, y)

older_entry :
    (best e : LogEntry) (es : List LogEntry)
    → ltb best.last_write_time e.last_write_time ≡ false
    → max_element_from best es ≡ max_element_from best (e ∷ es)
unfolding max_element_from
older_entry best e es n = ground (arith, n)

max_element_from-Newest :
    (best : LogEntry) (es : List LogEntry) → Newest best es (max_element_from best es)
unfolding max_element_from
max_element_from-Newest best [] = (mem-cons_self, (omega arith, tt))
max_element_from-Newest best (e ∷ es) =
    let newer = max_element_from-Newest e es in
    let older = max_element_from-Newest best es in
    elim (Bool-cases (ltb best.last_write_time e.last_write_time)) [
      | inl y ↦
          subst (Newest best (e ∷ es)) (newer_entry best e es y)
            (mem-cons_of_mem best newer.0, (ground (arith, y, newer.1.0), newer.1))
      | inr n ↦
          subst (Newest best (e ∷ es)) (older_entry best e es n)
            (Mem-skip best e es _ older.0, (older.1.0, (ground (arith, n, older.1.0), older.1.1)))
    ]

max_element-cases :
    (es : List LogEntry)
    → ((es ≡ []) × (max_element es ≡ none))
      ⊎ ((last : LogEntry) × (max_element es ≡ some last) × Mem last es × IsNewest last es)
unfolding max_element
max_element-cases [] = inl (refl, refl)
max_element-cases (e ∷ es) =
    let found = max_element_from-Newest e es in inr (max_element_from e es, refl, found.0, found.1)

-- The file for the newest of the regular entries `es`.
abbrev pub file_for : Text → Text → ℕ → List LogEntry → LogEntry → LogFile
file_for folder service limit es last =
    if has_room limit last
    then appended last.path
    else created (new_log_file folder service (length es + 1))

open_in-eq :
    (folder service : Text) (limit : ℕ) (e : LogEntry) (es : List LogEntry)
    → open_in folder service limit (e ∷ es) ≡ (
        max_element (regular_entries (e ∷ es))
        >>= (λ last. some (file_for folder service limit (regular_entries (e ∷ es)) last)))
unfolding open_in
open_in-eq folder service limit e es = refl

-- What opening the log gives in a folder with these entries.
abbrev pub Outcome : Text → Text → ℕ → List LogEntry → LogFile → Type 0
Outcome folder service limit es f =
    ((last : LogEntry) × Mem last (regular_entries es)
      × IsNewest last (regular_entries es)
      × (f ≡ file_for folder service limit (regular_entries es) last))
    ⊎ ((es ≡ []) × (f ≡ created (new_log_file folder service 1)))

no_last :
    (folder service : Text) (limit : ℕ) (e : LogEntry) (es : List LogEntry)
    → (open_in folder service limit (e ∷ es) ≡ none)
      ↔ ((e ∷ es ≢ []) × (regular_entries (e ∷ es) ≡ []))
no_last folder service limit e es = elim (max_element-cases (regular_entries (e ∷ es))) [
  | inl (q, m) ↦ rw (open_in-eq folder service limit e es, m) ((λ _. (λ h. cc, q)), λ _. refl)
  | inr (last, m, found, _) ↦
      rw (open_in-eq folder service limit e es, m)
        (λ h. cc, λ h. absurd (not-mem-nil (subst (Mem last) h.1 found)))
]

-- Opening the log reads through the end iterator exactly when the folder has entries and none of them
-- is a regular file.
pub open_in-none :
    (folder service : Text) (limit : ℕ) (es : List LogEntry)
    → (open_in folder service limit es ≡ none) ↔ ((es ≢ []) × (regular_entries es ≡ []))
unfolding open_in
open_in-none folder service limit [] = (λ e. cc, λ h. absurd (h.0 refl))
open_in-none folder service limit (e ∷ es) = no_last folder service limit e es

-- In a folder without entries, or with a regular file, the log is opened. In the first case the file
-- with the number 1 is created. In the second the newest of the regular files is gone on with if its
-- size is known and within the limit, and if not a file is created with a number one above the number
-- of regular files.
pub open_in-Outcome :
    (folder service : Text) (limit : ℕ) (es : List LogEntry)
    → (es ≡ []) ⊎ (regular_entries es ≢ [])
    → (f : LogFile) × (open_in folder service limit es ≡ some f) × Outcome folder service limit es f
unfolding open_in
open_in-Outcome folder service limit [] h = (_, refl, inr (refl, refl))
open_in-Outcome folder service limit (e ∷ es) (inl h) = absurd (cons≢nil h)
open_in-Outcome folder service limit (e ∷ es) (inr h) =
    elim (max_element-cases (regular_entries (e ∷ es))) [
      | inl (q, m) ↦ absurd (h q)
      | inr (last, m, found, newest) ↦ (
        file_for folder service limit (regular_entries (e ∷ es)) last,
        open_in-eq folder service limit e es
            ∙ ap
                (λ o. o >>= (λ last.
                  some (file_for folder service limit (regular_entries (e ∷ es)) last)))
                m,
        inl (last, found, newest, refl),
      )
    ]
