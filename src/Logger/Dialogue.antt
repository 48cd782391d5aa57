-- ===== src/Logger/Dialogue.antt =====
-- Logger/src/logger.cpp, create_dir_if_not_exist, which Inotify_module/src/inotify_module.cpp repeats:
-- the dialogue with the user about a folder that does not exist.
use pet_project.Base.{
  ℕ, ◌≡◌, ◌↔◌, refl, sym, ◌∙◌, Bool, true, false, ◌||◌, Option, none, some, List, [], ◌∷◌, ◌==◌,
  All, arith, if◌then◌else◌, Bool-cases, inl, inr,
}

-- What a read of a character from std::cin meets: nothing, as at the end of the input, or the
-- character, with whether the stream's state is badbit after the next one has been skipped.
pub data Input : Type 0 where
  nothing_read : Input
  char_read : ℕ → Bool → Input

-- The loop, for what create_directories returns: what is returned, or `none` if the inputs end before.
unfoldable pub create_dir_if_not_exist : Bool → List Input → Option Bool
create_dir_if_not_exist created [] = none
create_dir_if_not_exist created (nothing_read ∷ is) = create_dir_if_not_exist created is
create_dir_if_not_exist created (char_read c bad ∷ is) =
    let again = create_dir_if_not_exist created is in
    if c == b'y'
    then some created
    else if c == b'n'
    then some false
    else if bad
    then some false
    else again

-- An input after which the question is asked again.
abbrev pub asks_again : Input → Bool
asks_again nothing_read = true
asks_again (char_read c bad) = if c == b'y' || (c == b'n' || bad) then false else true

abbrev pub IsUndecided : Input → Type 0
IsUndecided i = asks_again i ≡ true

undecided :
    (created : Bool) (i : Input) (is : List Input)
    → IsUndecided i
    → create_dir_if_not_exist created (i ∷ is) ≡ create_dir_if_not_exist created is
unfolding create_dir_if_not_exist
undecided created nothing_read is h = refl
undecided created (char_read c bad) is h = ground arith

decided :
    (created : Bool) (i : Input) (is : List Input)
    → asks_again i ≡ false
    → (b : Bool) × (create_dir_if_not_exist created (i ∷ is) ≡ some b)
unfolding create_dir_if_not_exist
decided created nothing_read is h = absurd (ground arith)
decided created (char_read c bad) is h = elim (Bool-cases (c == b'y')) [
  | inl y ↦ (created, ground (arith, y))
  | inr n ↦ (false, ground (arith, n, h))
]

-- The dialogue has not ended after these inputs if and only if each of them is a failed read, as at the
-- end of std::cin, or a character other than y and n without badbit: so at the end of the input the
-- question is asked for ever.
pub create_dir_if_not_exist-none :
    (created : Bool) (is : List Input)
    → (create_dir_if_not_exist created is ≡ none) ↔ All IsUndecided is
unfolding create_dir_if_not_exist
create_dir_if_not_exist-none created [] = (λ _. tt, λ _. refl)
create_dir_if_not_exist-none created (i ∷ is) = elim (Bool-cases (asks_again i)) [
  | inl y ↦
      let (to, from) = create_dir_if_not_exist-none created is in
      (λ h. (y, to (sym (undecided created i is y) ∙ h)), λ h. undecided created i is y ∙ from h.1)
  | inr n ↦
      let (b, e) = decided created i is n in
      (λ h. absurd (ground (arith, e, h)), λ h. absurd (ground (arith, n, h.0)))
]
