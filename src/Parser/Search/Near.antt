-- ===== src/Parser/Search/Near.antt =====
-- Config_searching: the path of a file that is near.
use pet_project.Base.{
  ℕ, ◌+◌, ◌<◌, ◌≡◌, refl, ◌∙◌, subst, true, inl, inr, some, ltb, arith, Bool-cases,
}
use pet_project.Handler.Dir.{path_append}
use pet_project.Base.Text.{Text}
use pet_project.Parser.Search.{Directory, FileSystem, dir_text, Search, returned, construct}
use pet_project.Parser.Search.Nearest.{up, IsThere, path_at, Answers, construct-Answers}

module _ (files : FileSystem) (config : Text) where
  least-eq :
      (dir : Directory) (m n : ℕ)
      → IsThere files config m dir
      → IsThere files config n dir
      → ((k : ℕ) → k < m → ¬ IsThere files config k dir)
      → ((k : ℕ) → k < n → ¬ IsThere files config k dir)
      → m ≡ n
  least-eq dir m n at_m at_n below_m below_n = elim (Bool-cases (ltb m n)) [
    | inl y ↦ absurd (below_n m (ground (arith, y)) at_m)
    | inr x ↦ elim (Bool-cases (ltb n m)) [
      | inl y ↦ absurd (below_m n (ground (arith, y)) at_n)
      | inr y ↦ ground (arith, x, y)
    ]
  ]

  -- When the nearest directory with the file is fewer than four steps up, its path is found.
  pub construct_near :
      (dir : Directory) (n : ℕ)
      → n < 4
      → IsThere files config n dir
      → ((m : ℕ) → m < n → ¬ IsThere files config m dir)
      → (s : Search) × (construct files config dir ≡ some (returned s))
        × (s.path ≡ path_append (dir_text (up n dir)) config)
  construct_near dir n near there nearer = go (construct-Answers files config dir)
    where
      low : ltb (0 + n) 4 ≡ true
      low = ground arith

      go :
          Answers files config 0 dir (construct files config dir)
          → (s : Search) × (construct files config dir ≡ some (returned s))
            × (s.path ≡ path_append (dir_text (up n dir)) config)
      go (inl (x, nowhere)) = absurd (nowhere n there)
      go (inr (m, s, x, there', nearer', f, p, c)) = (
        s,
        x,
        subst (λ k. s.path ≡ path_at files config (0 + k) (up k dir))
              (least-eq dir m n there' there nearer' nearer) p
            ∙ rw low refl,
      )
