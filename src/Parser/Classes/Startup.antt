-- ===== src/Parser/Classes/Startup.antt =====
-- A parser from its construction to the values that a module reads from it when it starts.
use pet_project.Base.{
  ℕ, zero, suc, ◌≡◌, ◌≢◌, refl, true, false, none, some, List, [], ◌∷◌, map, arith, length,
  get_elem?, ◌↔◌,
}
use pet_project.Base.Text.{Text}
use pet_project.Parser.CString.{until_nul}
use pet_project.Parser.Massives.{
  Array, live, null, dangling, Parser, Section, constructing_massives, string_at, validate_parsed,
  too_few,
}
use pet_project.Parser.Massives.Contents.{array_strings, constructing_massives-Holds, string_at_lem}
use pet_project.Parser.Massives.Validate.{validate_parsed_exact}
use pet_project.Parser.Classes.{
  Class, parser_db, parser_inotify, parser_server_http, parser_client_http, Ptree, section_name,
  expected, construct, parsed_info_ptr, validate, no_data,
}

abbrev pub keys_of : Section → List Text
keys_of section = map (λ e. until_nul e.0) section

validate-eq :
    (c : Class) (p : Parser)
    → c ≢ parser_db
    → validate c p ≡ validate_parsed (length (expected c)) (expected c) p
unfolding validate
validate-eq parser_db p h = absurd (h refl)
validate-eq parser_inotify p h = refl
validate-eq parser_server_http p h = refl
validate-eq parser_client_http p h = refl

-- For each class but Parser_DB: when the tree has the class's section, the parser built from it
-- passes the check exactly when the section's keys are the class's keywords in their order.
pub validate-construct :
    (c : Class) (config : Ptree) (section : Section)
    → c ≢ parser_db
    → config (section_name c) ≡ some section
    → (validate c (construct c config).0 ≡ some (true, [])) ↔ (keys_of section ≡ expected c)
unfolding construct
validate-construct c config section h e =
    rw (validate-eq c _ h, e, construct)
      (validate_parsed_exact (constructing_massives section) (keys_of section)
        (map (λ e. until_nul e.1) section) (expected c) (constructing_massives-Holds section))

-- When the tree lacks the section, no class passes the check, and there is no array to read from.
pub construct_missing :
    (c : Class) (config : Ptree) (m : ℕ)
    → config (section_name c) ≡ none
    → ((message : Text) × (validate c (construct c config).0 ≡ some (false, message)))
      × (parsed_info_ptr c m (construct c config).0 ≡ null)
unfolding construct validate validate_parsed parsed_info_ptr
construct_missing parser_db config m e = ((no_data, ground arith), ground arith)
construct_missing parser_inotify config m e = ((too_few, ground arith), ground arith)
construct_missing parser_server_http config m e = ((too_few, ground arith), ground arith)
construct_missing parser_client_http config m e = ((too_few, ground arith), ground arith)

get_elem?-map {ℓ κ} :
    {A : Type ℓ} {B : Type κ} (f : A → B) (xs : List A) (i : ℕ) (a : A)
    → get_elem? xs i ≡ some a
    → get_elem? (map f xs) i ≡ some (f a)
get_elem?-map f [] i a h = absurd (ground arith)
get_elem?-map f (x ∷ xs) zero a h = ground arith
get_elem?-map f (x ∷ xs) (suc i) a h = get_elem?-map f xs i a h

pub string_at-values :
    (a : Array) (ts : List Text) (i : ℕ) (t : Text)
    → array_strings a ≡ some ts
    → get_elem? ts i ≡ some t
    → string_at a i ≡ some t
string_at-values (live bs) ts i t h g = string_at_lem bs ts i t h g
string_at-values null ts i t h g = cc
string_at-values dangling ts i t h g = cc

info_values : (c : Class) (m : ℕ) (p : Parser) → c ≢ parser_db → parsed_info_ptr c m p ≡ p.values
unfolding parsed_info_ptr
info_values parser_db m p h = absurd (h refl)
info_values parser_inotify m p h = refl
info_values parser_server_http m p h = refl
info_values parser_client_http m p h = refl

pub construct-eq :
    (c : Class) (config : Ptree) (section : Section)
    → config (section_name c) ≡ some section
    → (construct c config).0 ≡ constructing_massives section
unfolding construct
construct-eq c config section e = ground arith

-- When the check of a class other than Parser_DB passes, the value that `parsed_info_ptr()[i]` reads
-- is the section's value for the keyword that stands at `i` in the class's table.
pub validated_values :
    (c : Class) (config : Ptree) (section : Section) (i m : ℕ) (k v : Text)
    → c ≢ parser_db
    → config (section_name c) ≡ some section
    → validate c (construct c config).0 ≡ some (true, [])
    → get_elem? section i ≡ some (k, v)
    → (get_elem? (expected c) i ≡ some (until_nul k))
      × (string_at (parsed_info_ptr c m (construct c config).0) i ≡ some (until_nul v))
validated_values c config section i m k v h e passed g = (
  rw (← (validate-construct c config section h e).0 passed)
      (get_elem?-map (λ e. until_nul e.0) section i (k, v) g),
  rw (info_values c m (construct c config).0 h, construct-eq c config section e)
      (string_at-values (constructing_massives section).values (map (λ e. until_nul e.1) section) i
        (until_nul v) (constructing_massives-Holds section).values_read
        (get_elem?-map (λ e. until_nul e.1) section i (k, v) g)),
)
