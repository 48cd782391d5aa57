-- ===== src/Client/Fields.antt =====
-- Client_HTTP::parse, and the version that the client asks for.
use pet_project.Base.{
  ℕ, zero, suc, ◌≡◌, ◌≢◌, ◌≤◌, ◌<◌, ◌↔◌, refl, false, none, some, List, [], ◌∷◌, ◌++◌, length,
  replicate, All, arith, ◌==◌, length-append, Option-cases, inl, inr, Bool-cases,
}
use pet_project.Base.Text.{Text, lit, text_eq, is_empty}
use pet_project.Base.Decimal.{is_space}
use pet_project.Client.{split_comma, skip_spaces, parse_loop, parse, version_of}

abbrev pub NoComma : Text → Type 0
NoComma = All (λ c. c ≢ b',')

-- The text does not begin with a space.
abbrev pub Unindented : Text → Type 0
Unindented [] = Unit
Unindented (c ∷ s) = is_space c ≡ false

-- The fields with a comma and `n` spaces between them.
abbrev pub join : ℕ → Text → List Text → Text
join n f [] = f
join n f (g ∷ fs) = f ++ (b',' ∷ (replicate n b' ' ++ join n g fs))

split_comma-append : (f r : Text) → NoComma f → split_comma (f ++ b',' ∷ r) ≡ (f, some r)
unfolding split_comma
split_comma-append [] r h = refl
split_comma-append (c ∷ f) r h = ground (arith, split_comma-append f r h.1, h.0)

split_comma_last : (f : Text) → NoComma f → split_comma f ≡ (f, none)
unfolding split_comma
split_comma_last [] h = refl
split_comma_last (c ∷ f) h = ground (arith, split_comma_last f h.1, h.0)

skip_spaces-append : (n : ℕ) (s : Text) → Unindented s → skip_spaces (replicate n b' ' ++ s) ≡ s
unfolding skip_spaces
skip_spaces-append zero [] h = refl
skip_spaces-append zero (c ∷ s) h = ground (arith, h)
skip_spaces-append (suc n) s h = ground (arith, skip_spaces-append n s h)

Unindented-join : (n : ℕ) (f : Text) (fs : List Text) → Unindented f → Unindented (join n f fs)
Unindented-join n f [] h = h
Unindented-join n [] (g ∷ fs) h = refl
Unindented-join n (c ∷ f) (g ∷ fs) h = h

parse_loop-join :
    (n fuel : ℕ) (f : Text) (fs : List Text)
    → NoComma f
    → All NoComma fs
    → All Unindented fs
    → length fs ≤ fuel
    → parse_loop (suc fuel) (join n f fs) ≡ some (f ∷ fs)
unfolding parse_loop
parse_loop-join n fuel f [] hf hs hu le = ground (arith, split_comma_last f hf)
parse_loop-join n zero f (g ∷ fs) hf hs hu le = absurd (omega (arith, le))
parse_loop-join n (suc fuel) f (g ∷ fs) hf hs hu le = ground (
  arith,
  split_comma-append f (replicate n b' ' ++ join n g fs) hf,
  skip_spaces-append n (join n g fs) (Unindented-join n g fs hu.0),
  parse_loop-join n fuel g fs hs.0 hs.1 hu.1 (omega (arith, le)),
)

length-join : (n : ℕ) (f : Text) (fs : List Text) → length fs ≤ length (join n f fs)
length-join n f [] = omega arith
length-join n f (g ∷ fs) = omega (
  arith,
  length-append f (b',' ∷ (replicate n b' ' ++ join n g fs)),
  length-append (replicate n b' ') (join n g fs),
  length-join n g fs,
)

-- A list written with a comma and any number of spaces between its fields is parsed to these fields,
-- if no field has a comma and none but the first begins with a space.
pub parse-join :
    (n : ℕ) (f : Text) (fs : List Text)
    → NoComma f
    → All NoComma fs
    → All Unindented fs
    → parse (join n f fs) ≡ some (f ∷ fs)
unfolding parse
parse-join n f fs hf hs hu =
    parse_loop-join n (length (join n f fs)) f fs hf hs hu (length-join n f fs)

length-split_comma : (s r : Text) → (split_comma s).1 ≡ some r → length r < length s
unfolding split_comma
length-split_comma [] r e = absurd (ground (arith, e))
length-split_comma (c ∷ s) r e = elim (Bool-cases (c == b',')) [
  | inl y ↦ ground (arith, y, e)
  | inr n ↦ ground (arith, n, e, length-split_comma s r)
]

length-skip_spaces : (s : Text) → length (skip_spaces s) ≤ length s
unfolding skip_spaces
length-skip_spaces [] = omega arith
length-skip_spaces (c ∷ s) = ground (arith, length-skip_spaces s)

parse_loop_total :
    (fuel : ℕ) (s : Text)
    → length s < fuel
    → (f : Text) × (fs : List Text) × (parse_loop fuel s ≡ some (f ∷ fs))
unfolding parse_loop
parse_loop_total zero s h = absurd (omega (arith, h))
parse_loop_total (suc fuel) s h = elim (Option-cases (split_comma s).1) [
  | inl e ↦ ((split_comma s).0, [], ground (arith, e))
  | inr (r, e) ↦
      let (g, gs, q) =
        parse_loop_total fuel (skip_spaces r)
          (omega (arith, h, length-skip_spaces r, length-split_comma s r e)) in
      ((split_comma s).0, g ∷ gs, ground (arith, e, q))
]

-- Every text is parsed, and to at least one field: a parsed list is never empty.
pub parse_total : (s : Text) → (f : Text) × (fs : List Text) × (parse s ≡ some (f ∷ fs))
unfolding parse
parse_total s = parse_loop_total (suc (length s)) s (omega arith)

-- HTTP 1.0 is asked for exactly when the ini file has a version, whatever it is: also for "1.1".
pub version_of_iff : (v : Text) → (version_of v ≡ 10) ↔ (v ≢ [])
unfolding version_of is_empty text_eq lit
version_of_iff [] = (λ e h. ground (arith, e), λ e. absurd (e refl))
version_of_iff (c ∷ v) = (λ e h. cc, λ e. refl)
