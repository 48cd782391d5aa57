-- ===== src/Parser/Search/Nearest.antt =====
-- Config_searching: which directory's file is found.
use pet_project.Base.{
  ℕ, zero, suc, ◌+◌, ◌<◌, ◌≤◌, leb, ◌>>=◌, ◌≡◌, refl, ap, ◌∙◌, true, false, ◌⊎◌, inl, inr, Option,
  some, [], ◌∷◌, ltb, if◌then◌else◌, arith, Bool-cases,
}
use pet_project.Base.Text.{Text}
use pet_project.Handler.Dir.{path_append}
use pet_project.Parser.Search.{
  Directory, FileSystem, dir_text, parent, Search, Outcome, returned, thrown, not_founded,
  leave_to_parent, has_config, searching_forward, searching_backward, upward, searching_begin,
  construct,
}
use pet_project.Parser.Search.Scan.{HasFile, has_config-HasFile, not-HasFile, each_entry_lem}

-- The directory `n` steps up.
abbrev pub up : ℕ → Directory → Directory
up zero dir = dir
up (suc n) dir = up n (parent dir)

module _ (files : FileSystem) (config : Text) where
  abbrev pub IsThere : ℕ → Directory → Type 0
  IsThere n dir = HasFile config (files (up n dir))

  -- With fewer than four steps up it is the file, else its directory.
  abbrev pub path_at : ℕ → Directory → Text
  path_at n dir = if ltb n 4 then path_append (dir_text dir) config else dir_text dir

  -- The outcome of a search that has come to `dir` by `k` steps up.
  abbrev pub Answers : ℕ → Directory → Option Outcome → Type 0
  Answers k dir r =
      ((r ≡ some (not_founded config)) × ((n : ℕ) → ¬ IsThere n dir))
      ⊎ ((n : ℕ) × (s : Search) × (r ≡ some (returned s))
          × IsThere n dir
          × ((m : ℕ) → m < n → ¬ IsThere m dir)
          × (s.config_founded ≡ true)
          × (s.path ≡ path_at (k + n) (up n dir))
          × (s.current_path ≡ up n dir))

  up-root : (n : ℕ) → up n [] ≡ []
  up-root zero = refl
  up-root (suc n) = up-root n

  Answers-here :
      (k : ℕ) (dir : Directory) (s : Search)
      → has_config config (files dir) ≡ true
      → s.config_founded ≡ true
      → s.path ≡ path_at k dir
      → s.current_path ≡ dir
      → Answers k dir (some (returned s))
  Answers-here k dir s h f p c = inr (
    0,
    s,
    refl,
    has_config-HasFile config (files dir) h,
    (λ m l. elim l [ ]),
    f,
    p ∙ ap (λ n. path_at n dir) (omega arith),
    c,
  )

  Answers-root :
      (k : ℕ) → has_config config (files []) ≡ false → Answers k [] (some (not_founded config))
  Answers-root k h = inl (refl, λ n. rw (up-root n) (not-HasFile config (files []) h))

  Answers-parent :
      (k : ℕ) (n : Text) (dir : Directory) (r : Option Outcome)
      → has_config config (files (n ∷ dir)) ≡ false
      → Answers (k + 1) dir r
      → Answers k (n ∷ dir) r
  Answers-parent k n dir r h (inl (e, none_above)) = inl (e, go)
    where
      go : (m : ℕ) → ¬ IsThere m (n ∷ dir)
      go zero = not-HasFile config (files (n ∷ dir)) h
      go (suc m) = none_above m
  Answers-parent k n dir r h (inr (i, s, e, there, nearer, f, p, c)) =
      inr (suc i, s, e, there, go, f, p ∙ ap (λ j. path_at j (up i dir)) (omega arith), c)
    where
      go : (m : ℕ) → m < suc i → ¬ IsThere m (n ∷ dir)
      go zero l = not-HasFile config (files (n ∷ dir)) h
      go (suc m) l = nearer m (omega arith)

  backward-Answers :
      (dir : Directory) (k : ℕ) (s : Search)
      → 4 ≤ k
      → Answers k dir (some (searching_backward files config dir s))
  unfolding searching_backward
  backward-Answers [] k s h = elim (Bool-cases (has_config config (files []))) [
    | inl y ↦ rw y (Answers-here k [] _ y refl (ground arith) refl)
    | inr n ↦ rw n (Answers-root k n)
  ]
  backward-Answers (x ∷ dir) k s h = elim (Bool-cases (has_config config (files (x ∷ dir)))) [
    | inl y ↦ rw y (Answers-here k (x ∷ dir) _ y refl (ground arith) refl)
    | inr n ↦ rw n (Answers-parent k x dir _ n (backward-Answers dir (k + 1) s (omega arith)))
  ]

  -- The state before anything has been found.
  abbrev looking : ℕ → Directory → Search
  looking k dir = record {
    level_down = 0;
    level_up = k;
    config_founded = false;
    path = [];
    current_path = dir;
  }

  abbrev after_upward : Option Outcome → Option Outcome
  after_upward r = do
    o ← r
    elim o [
      | thrown message ↦ some (thrown message)
      | returned t ↦
          if t.config_founded
          then some (returned t)
          else some (searching_backward files config t.current_path t)
    ]

  forward_lem :
      (k : ℕ) (dir : Directory)
      → searching_forward files config 5 [] (looking k dir) ≡ (
          if has_config config (files dir)
          then some (
              returned (record (looking k dir) {
                path = path_append (dir_text dir) config;
                config_founded = true;
              }))
          else leave_to_parent config dir (looking k dir))
  unfolding searching_forward
  forward_lem k dir =
      each_entry_lem config (searching_forward files config 4 []) (leave_to_parent config dir) []
        dir (files dir) (looking k dir) refl

  abbrev found_at : ℕ → Directory → Search
  found_at k dir = record (looking k dir) {
    path = path_append (dir_text dir) config;
    config_founded = true;
  }

  level_low : (k : ℕ) → k < 4 → leb k 3 ≡ true
  level_low k h = ground arith

  -- The rounds of the loop in searching_begin.
  upward_over :
      (j k : ℕ) (dir : Directory)
      → 4 ≤ k
      → upward files config (suc j) (looking k dir) ≡ some (returned (looking k dir))
  unfolding upward
  upward_over j k dir h = ground arith

  upward_found :
      (j k : ℕ) (dir : Directory)
      → k < 4
      → has_config config (files dir) ≡ true
      → upward files config (suc (suc j)) (looking k dir) ≡ some (returned (found_at (k + 1) dir))
  unfolding upward
  upward_found j k dir h y = rw (level_low k h, forward_lem k dir, y) refl

  upward_root :
      (j k : ℕ)
      → k < 4
      → has_config config (files []) ≡ false
      → upward files config (suc j) (looking k []) ≡ some (not_founded config)
  unfolding upward leave_to_parent
  upward_root j k h n = rw (level_low k h, forward_lem k [], n) refl

  upward_parent :
      (j k : ℕ) (x : Text) (dir : Directory)
      → k < 4
      → has_config config (files (x ∷ dir)) ≡ false
      → upward files config (suc j) (looking k (x ∷ dir))
        ≡ upward files config j (looking (k + 1) dir)
  unfolding upward leave_to_parent
  upward_parent j k x dir h n = rw (level_low k h, forward_lem k (x ∷ dir), n) refl

  upward-Answers :
      (j : ℕ) (dir : Directory) (k : ℕ)
      → k + j ≡ 4
      → Answers k dir (after_upward (upward files config (suc j) (looking k dir)))
  upward-Answers zero dir k h =
      rw (upward_over 0 k dir (omega arith)) (backward-Answers dir k (looking k dir) (omega arith))
  upward-Answers (suc j) [] k h = elim (Bool-cases (has_config config (files []))) [
    | inl y ↦
        rw (upward_found j k [] (omega arith) y)
          (Answers-here k [] (found_at (k + 1) []) y refl (ground arith) refl)
    | inr n ↦ rw (upward_root (suc j) k (omega arith) n) (Answers-root k n)
  ]
  upward-Answers (suc j) (x ∷ dir) k h = elim (Bool-cases (has_config config (files (x ∷ dir)))) [
    | inl y ↦
        rw (upward_found j k (x ∷ dir) (omega arith) y)
          (Answers-here k (x ∷ dir) (found_at (k + 1) (x ∷ dir)) y refl (ground arith) refl)
    | inr n ↦
        rw (upward_parent (suc j) k x dir (omega arith) n)
          (Answers-parent k x dir _ n (upward-Answers j dir (k + 1) (omega arith)))
  ]

  -- The search comes to an end. It throws the exception if neither the working directory nor one above
  -- it has a regular file of the name. Else the working directory becomes the nearest directory that
  -- has one, and the path is that of the file if this is fewer than four steps up, but only that of
  -- the directory if it is four or more; directories below are never searched.
  pub construct-Answers : (dir : Directory) → Answers 0 dir (construct files config dir)
  unfolding construct searching_begin
  construct-Answers dir = upward-Answers 4 dir 0 refl
