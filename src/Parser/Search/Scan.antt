-- ===== src/Parser/Search/Scan.antt =====
-- Config_searching: the loops over the entries of one directory.
use pet_project.Base.{
  ◌≡◌, refl, ap, Bool, true, false, inl, inr, Option, some, List, [], ◌∷◌, ◌++◌, if◌then◌else◌,
  arith, Bool-cases, ◌&&◌,
}
use pet_project.Base.Text.{Text, text_eq, text_eq_iff}
use pet_project.Handler.Dir.{path_append}
use pet_project.Parser.Search.{
  FileType, regular, directory, other, Item, Directory, dir_text, Search, Outcome, returned,
  each_entry, has_config, is_regular_file,
}

-- A regular file of this name is among the entries.
abbrev pub HasFile : Text → List Item → Type 0
HasFile config es =
    (before after : List Item) × (es
      ≡ before ++ (record { filename = config; file_type = regular }) ∷ after)

module _ (config : Text) where
  abbrev wanted : Item
  wanted = record { filename = config; file_type = regular }

  -- What the two searches have tested when they stop at an entry.
  abbrev is_wanted : Item → Bool
  is_wanted e = is_regular_file e && text_eq e.filename config

  is_wanted_lem :
      (f : Text) (t : FileType)
      → is_wanted (record { filename = f; file_type = t }) ≡ true
      → (record { filename = f; file_type = t }) ≡ wanted
  is_wanted_lem f regular h =
      ap (λ n. record { filename = n; file_type = regular }) ((text_eq_iff f config).0 h)
  is_wanted_lem f directory h = cc
  is_wanted_lem f other h = cc

  pub has_config-HasFile : (es : List Item) → has_config config es ≡ true → HasFile config es
  unfolding has_config
  has_config-HasFile [] h = cc
  has_config-HasFile (e ∷ es) h = elim (Bool-cases (is_wanted e)) [
    | inl y ↦ ([], es, ap (λ a. a ∷ es) (is_wanted_lem e.filename e.file_type y))
    | inr n ↦
        let (before, after, p) = has_config-HasFile es (rw n at h) in
        (e ∷ before, after, ap (λ xs. e ∷ xs) p)
  ]

  has_config-append :
      (before after : List Item) → has_config config (before ++ wanted ∷ after) ≡ true
  unfolding has_config
  has_config-append [] after = ground (arith, (text_eq_iff config config).1 refl)
  has_config-append (e ∷ before) after = ground (arith, has_config-append before after)

  pub not-HasFile : (es : List Item) → has_config config es ≡ false → ¬ HasFile config es
  not-HasFile es h (before, after, p) =
      ground (arith, ap (has_config config) p, has_config-append before after)

  abbrev pub FirstFile :
      (Search → Option Outcome)
      → (Search → Option Outcome)
      → Text
      → Directory
      → List Item
      → Search
      → Type 0
  FirstFile descend leave previous dir es s = each_entry config descend leave previous dir es s ≡ (
      if has_config config es
      then some
          (returned (record s { path = path_append (dir_text dir) config; config_founded = true }))
      else leave s)

  -- The loop of searching_forward, as long as nothing has been found.
  pub each_entry_lem :
      (descend leave : Search → Option Outcome) (previous : Text) (dir : Directory) (es : List Item)
      (s : Search)
      → s.config_founded ≡ false
      → FirstFile descend leave previous dir es s
  unfolding each_entry has_config
  each_entry_lem descend leave previous dir [] s n = refl
  each_entry_lem descend leave previous dir (e ∷ es) s n =
      go e.filename e.file_type (each_entry_lem descend leave previous dir es s n)
    where
      go :
          (f : Text) (t : FileType)
          → FirstFile descend leave previous dir es s
          → FirstFile descend leave previous dir ((record { filename = f; file_type = t }) ∷ es) s
      go f regular h = elim (Bool-cases (text_eq f config)) [
        | inl y ↦ rw (n, y, (text_eq_iff f config).0 y)
        | inr m ↦ rw (m, h, n)
      ]
      go f directory h = h
      go f other h = h
