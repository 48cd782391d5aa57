-- ===== src/Parser/Massives/Contents.antt =====
-- What a parser's arrays hold, read back as C strings.
use pet_project.Base.{
  ℕ, zero, suc, ◌≡◌, refl, ap, Option, none, some, List, [], ◌∷◌, map, arith, length, get_elem?,
  ◌>>=◌,
}
use pet_project.Base.Text.{Text}
use pet_project.Parser.CString.{c_string, until_nul, c_string-strncpy}
use pet_project.Parser.Massives.{
  Array, live, Parser, Section, new_string, constructing_massives, string_at,
}

abbrev pub strings : List Text → Option (List Text)
strings [] = some []
strings (b ∷ bs) = do s ← c_string b; ts ← strings bs; some (s ∷ ts)

abbrev pub array_strings : Array → Option (List Text)
array_strings (live bs) = strings bs
array_strings a = none

-- The parser owns two arrays of its size, which read as `ks` and `vs`.
pub record Holds (p : Parser) (ks vs : List Text) : Type 0 where
  pub keywords_read : array_strings p.keywords ≡ some ks
  pub values_read : array_strings p.values ≡ some vs
  pub keywords_size : length ks ≡ p.size_char_ptr_ptr
  pub values_size : length vs ≡ p.size_char_ptr_ptr

strings-new_string :
    (section : Section) (f : Text × Text → Text)
    → strings (map (λ e. new_string (f e)) section) ≡ some (map (λ e. until_nul (f e)) section)
strings-new_string [] f = refl
strings-new_string (e ∷ es) f = rw (c_string-strncpy (f e), strings-new_string es f)

length-map {ℓ κ} :
    {A : Type ℓ} {B : Type κ} (f : A → B) (xs : List A) → length (map f xs) ≡ length xs
length-map f [] = refl
length-map f (x ∷ xs) = ap suc (length-map f xs)

-- A parser built from a section holds its keys and its values in order, each up to its first zero
-- byte.
pub constructing_massives-Holds :
    (section : Section)
    → Holds
        (constructing_massives section)
        (map (λ e. until_nul e.0) section)
        (map (λ e. until_nul e.1) section)
unfolding constructing_massives
constructing_massives-Holds section = record {
  keywords_read = strings-new_string section (λ e. e.0);
  values_read = strings-new_string section (λ e. e.1);
  keywords_size = length-map _ section;
  values_size = length-map _ section;
}

-- The string at an index is the one that the whole array reads as.
pub string_at_lem :
    (bs ts : List Text) (i : ℕ) (t : Text)
    → strings bs ≡ some ts
    → get_elem? ts i ≡ some t
    → string_at (live bs) i ≡ some t
unfolding string_at
string_at_lem [] ts i t h g = ground arith
string_at_lem (b ∷ bs) [] i t h g = cc
string_at_lem (b ∷ bs) (u ∷ ts) zero t h g = ground arith
string_at_lem (b ∷ bs) (u ∷ ts) (suc i) t h g = ground (arith, string_at_lem bs ts i t)
