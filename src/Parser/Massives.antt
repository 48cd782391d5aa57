-- ===== src/Parser/Massives.antt =====
-- ini_and_parser/include/parser.h, class Parser: the two arrays of C strings that a parser owns, and
-- parser.cpp's functions that build, free, print and check them. A result `none` is undefined
-- behaviour: a null or dangling pointer that is read, or an index behind an array.
pub mod Contents
pub mod Validate
use pet_project.Base.{
  ℕ, zero, suc, ◌+◌, Bool, true, false, Option, none, some, List, [], ◌∷◌, ◌++◌, map, length,
  get_elem?, ltb, leb, ◌==◌, if◌then◌else◌, ◌>>=◌,
}
use pet_project.Base.Text.{Text, lit, text_eq}
use pet_project.Parser.CString.{strncpy, c_string}

-- A `char**`: null, freed, or an array of the buffers with a null pointer behind them.
pub data Array : Type 0 where
  null dangling : Array
  live : List Text → Array

pub record Parser : Type 0 where
  pub size_char_ptr_ptr : ℕ
  pub keywords : Array
  pub values : Array

-- Parser() = default
abbrev pub default_parser : Parser
default_parser = record { size_char_ptr_ptr = 0; keywords = null; values = null }

-- A section of the property tree: its keys with their values, in its order.
abbrev pub Section : Type 0
Section = List (Text × Text)

abbrev pub new_string : Text → Text
new_string s = strncpy (suc (length s)) s

unfoldable pub constructing_massives : Section → Parser
constructing_massives section = record {
  size_char_ptr_ptr = length section;
  keywords = live (map (λ e. new_string e.0) section);
  values = live (map (λ e. new_string e.1) section);
}

-- for (i = 0; i != n; ++i) delete [] a[i]; delete [] a;
unfoldable pub delete_array : ℕ → Array → Option Array
delete_array n null = none
delete_array n dangling = none
delete_array n (live bs) = if ltb (length bs + 1) n then none else some dangling

-- if (a) { delete every string }; delete [] a;
unfoldable pub delete_if_set : ℕ → Array → Option Array
unfolding delete_array
delete_if_set n null = some null
delete_if_set n a = delete_array n a

pub clearing_massives : Parser → Option Parser
unfolding delete_if_set
clearing_massives p = if p.size_char_ptr_ptr == 0 then some p else (do
  vs ← delete_array p.size_char_ptr_ptr p.values
  ks ← delete_if_set p.size_char_ptr_ptr p.keywords
  some (record p { keywords = ks; values = vs }))

-- a[i] as a C string; the pointer behind the last string is null
unfoldable pub string_at : Array → ℕ → Option Text
unfolding c_string
string_at (live bs) i = do b ← get_elem? bs i; c_string b
string_at a i = none

-- What display() prints.
unfoldable pub display_from : ℕ → ℕ → Parser → Option Text
unfolding string_at
display_from i zero p = some []
display_from i (suc n) p = do
  k ← string_at p.keywords i
  v ← string_at p.values i
  rest ← display_from (suc i) n p
  some (k ++ (lit " = " ++ (v ++ (b'\n' ∷ rest))))

pub display : Parser → Option Text
unfolding display_from
display p = display_from 0 p.size_char_ptr_ptr p

-- The comparing loop of validate_parsed, from index `i` with `n` rounds left.
unfoldable pub validate_from : ℕ → ℕ → Array → List Text → Option (Bool × Text)
unfolding string_at
validate_from i zero keywords expected = some (true, [])
validate_from i (suc n) keywords expected = do
  k ← string_at keywords i
  e ← get_elem? expected i
  let rest = validate_from (suc i) n keywords expected
  if text_eq k e then rest else some (false, e)

abbrev pub too_few : Text
too_few = lit "Parsed count of keywords is less than it needed"

unfoldable pub validate_parsed : ℕ → List Text → Parser → Option (Bool × Text)
unfolding validate_from
validate_parsed expected_count expected p =
    if ltb p.size_char_ptr_ptr expected_count
    then some (false, too_few)
    else validate_from 0 p.size_char_ptr_ptr p.keywords expected
