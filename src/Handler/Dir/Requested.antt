-- ===== src/Handler/Dir/Requested.antt =====
-- Which targets are illegal, and which files a target asks for.
use pet_project.Base.{
  ℕ, ◌≡◌, ◌≢◌, ◌⊎◌, ◌↔◌, refl, inl, inr, Bool, true, ◌&&◌, none, some, [], ◌∷◌, ◌++◌, arith, length,
  ltb, ◌==◌, Bool-cases, sym, ◌∙◌, ap, length-append,
}
use pet_project.Base.Text.{
  Text, lit, text_eq_iff, starts_with, starts_with_lem, starts_with-append, contains,
  contains-Occurs, contains-append, Occurs, back?, drop_back, drop_back_lem, back?-append,
  drop_back-append,
}
use pet_project.Handler.Dir.{by_prefix, by_name, compare_file, is_illegal}

-- A target that ends with a slash or goes up in the directory tree.
abbrev pub IsIllegal : Text → Type 0
IsIllegal t = ((p : Text) × (t ≡ p ++ b'/' ∷ [])) ⊎ Occurs t (lit "..")

-- The file `n` is asked for: by its name, or by a prefix of it with a star.
abbrev pub Requested : Text → Text → Type 0
Requested t n =
    (n ≡ t) ⊎ ((p : Text) × (rest : Text) × (p ≢ []) × (t ≡ p ++ b'*' ∷ []) × (n ≡ p ++ rest))

pub is_illegal_iff :
    (t : Text) (last : ℕ) → back? t ≡ some last → (is_illegal last t ≡ true) ↔ IsIllegal t
unfolding is_illegal
is_illegal_iff t last e = (
  λ h. elim (Bool-cases (last == b'/')) [
    | inl y ↦
        inl (drop_back t, drop_back_lem t last e ∙ ap (λ c. drop_back t ++ c ∷ []) (ground arith))
    | inr n ↦ inr (contains-Occurs t (lit "..") (ground arith))
  ],
  λ h. elim h [
    | inl (p, q) ↦ ground (arith, back?-append p b'/', ap back? q)
    | inr (x, y, q) ↦
        ground (arith, ap (λ s. contains s (lit "..")) q, contains-append x (lit "..") y)
  ],
)

-- The closure that `find` chooses accepts exactly the files that the target asks for, and the new
-- target is then the file's name.
pub prefix_compare :
    (p file : Text)
    → p ≢ []
    → ((t : Text)
        → compare_file by_prefix p file ≡ some t
        → Requested (p ++ b'*' ∷ []) file × (t ≡ file))
      × (compare_file by_prefix p file ≡ none → ¬ Requested (p ++ b'*' ∷ []) file)
unfolding compare_file
prefix_compare p file ne = (
  λ t h.
      let accepted : starts_with file p ≡ true = ground arith in
      let (rest, e) = starts_with_lem file p accepted in (inr (p, rest, ne, refl, e), ground arith),
  λ h req. elim req [
    | inl q ↦ ground (arith, ap (λ s. starts_with s p) q, starts_with-append p (b'*' ∷ []))
    | inr (p', rest, _, e, q) ↦
        let same : p ≡ p' =
          sym (drop_back-append p b'*') ∙ ap drop_back e ∙ drop_back-append p' b'*' in
        ground (
          arith,
          ap (λ s. starts_with s p) (q ∙ ap (λ x. x ++ rest) (sym same)),
          starts_with-append p rest,
        )
  ],
)

pub name_compare :
    (target file : Text)
    → ((p : Text) → p ≢ [] → target ≢ p ++ b'*' ∷ [])
    → ((t : Text)
        → compare_file (by_name target) target file ≡ some t
        → Requested target file × (t ≡ file))
      × (compare_file (by_name target) target file ≡ none → ¬ Requested target file)
unfolding compare_file
name_compare target file plain = (
  λ t h.
      let accepted : file ≡ target = (text_eq_iff file target).0 (ground arith) in
      (inl accepted, ground arith),
  λ h req. elim req [
    | inl q ↦ ground (arith, (text_eq_iff file target).1 q)
    | inr (p, rest, ne, e, q) ↦ plain p ne e
  ],
)

abbrev pub is_star : ℕ → Text → Bool
is_star last t = ltb 1 (length t) && last == b'*'

pub star_prefix :
    (last : ℕ) (t : Text) → is_star last t ≡ true → back? t ≡ some last → drop_back t ≢ []
star_prefix last t star e empty = ground (
  arith,
  ap length (drop_back_lem t last e),
  length-append (drop_back t) (last ∷ []),
  ap (length {A = ℕ}) empty,
)

pub star_test :
    (last : ℕ) (t p : Text)
    → p ≢ []
    → t ≡ p ++ b'*' ∷ []
    → back? t ≡ some last
    → is_star last t ≡ true
star_test last t [] ne q e = absurd (ne refl)
star_test last t (a ∷ p) ne q e =
    ground (arith, ap length q, length-append p (b'*' ∷ []), ap back? q, back?-append (a ∷ p) b'*')
