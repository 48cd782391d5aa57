-- ===== src/Client.antt =====
-- Client_HTTP/src/client_http.cpp: the lists of the ini file, the version, the loop over the targets
-- and the name of a downloaded file. The session is the only one at work on the targets;
-- `Client/Sessions` has several, `Client/Session` what a session does with a target, and
-- `Client/Startup` the constructor and run.
pub mod Fields
pub mod Targets
pub mod Download
pub mod Sessions
pub mod Session
pub mod Startup
use pet_project.Base.{
  ℕ, zero, suc, ◌+◌, ◌-◌, Bool, true, false, ◌||◌, not, Option, none, some, List, [], ◌∷◌, length,
  get_elem?, ltb, ◌==◌, if◌then◌else◌, ◌>>=◌,
}
use pet_project.Base.Text.{Text, lit, text_eq, is_empty}
use pet_project.Base.Int.{ℤ, pos, negsuc, int_ltb}
use pet_project.Base.Decimal.{is_space}

-- s_w.find(","): the bytes before the comma, and those behind it if there is one
unfoldable pub split_comma : Text → Text × Option Text
split_comma [] = ([], none)
split_comma (c ∷ s) =
    let (field, rest) = split_comma s in if c == b',' then ([], some s) else (c ∷ field, rest)

-- while std::isspace(s_w[++pos_begin]); the byte behind the text is the zero of the C string
unfoldable pub skip_spaces : Text → Text
skip_spaces [] = []
skip_spaces (c ∷ s) = let rest = skip_spaces s in if is_space c then rest else c ∷ s

-- The loop of parse, a round for each comma and one more.
unfoldable pub parse_loop : ℕ → Text → Option (List Text)
unfolding split_comma skip_spaces
parse_loop zero s = none
parse_loop (suc fuel) s =
    let (field, rest) = split_comma s in
    elim rest [
      | none ↦ some (field ∷ [])
      | some r ↦ do fields ← parse_loop fuel (skip_spaces r); some (field ∷ fields)
    ]

-- Each round but the last takes a comma away, so `length s + 1` rounds are enough.
unfoldable pub parse : Text → Option (List Text)
unfolding parse_loop
parse s = parse_loop (suc (length s)) s

-- strcmp(_version, "\0") || !strcmp(_version, "1.0") ? 10 : 11
unfoldable pub version_of : Text → ℕ
version_of v = if not (is_empty v) || text_eq v (lit "1.0") then 10 else 11

pub record Looper : Type 0 where
  pub targets : List Text
  pub targets_loops : ℤ
  pub targets_index : ℕ
  pub targets_looping_over : Bool

-- The constructor, for the number that the user enters if there are targets.
unfoldable pub start : List Text → ℤ → Looper
start [] entered = record {
  targets = [];
  targets_loops = pos 0;
  targets_index = 0;
  targets_looping_over = true;
}
start (t ∷ ts) entered = record {
  targets = t ∷ ts;
  targets_loops = entered;
  targets_index = 0;
  targets_looping_over = not (int_ltb (pos 0) entered);
}

abbrev pub decrement : ℤ → ℤ
decrement (pos n) = if ltb 0 n then pos (n - 1) else negsuc 0
decrement (negsuc n) = negsuc (suc n)

-- The next loop over the targets, or the end of the loops. `none` is an index behind the targets.
unfoldable pub begin_loop : Looper → Option (Option Text × Looper)
begin_loop l =
    let again = (do
      t ← get_elem? l.targets 0
      some (some t, record l { targets_loops = decrement l.targets_loops; targets_index = 1 })) in
    if int_ltb (pos 0) (decrement l.targets_loops)
    then again
    else some (
      none,
      record l {
        targets_loops = decrement l.targets_loops;
        targets_index = 0;
        targets_looping_over = true;
      },
    )

-- What is appended to the target: one of the targets, or what the user is asked for (`none`).
unfoldable pub next_target : Looper → Option (Option Text × Looper)
unfolding begin_loop
next_target l =
    let following = (do
      t ← get_elem? l.targets l.targets_index
      some (some t, record l { targets_index = l.targets_index + 1 })) in
    let wrapped = begin_loop l in
    if l.targets_looping_over
    then some (none, l)
    else if ltb l.targets_index (length l.targets)
    then following
    else wrapped

-- c_d_field.find_first_of(c)
unfoldable pub index_of : ℕ → Text → Option ℕ
index_of c [] = none
index_of c (a ∷ s) =
    let rest = (do i ← index_of c s; some (suc i)) in if a == c then some 0 else rest

-- The position 2 behind the equals sign; without one, npos + 2 wraps to 1.
unfoldable pub name_begin : Text → ℕ
unfolding index_of
name_begin field = elim (index_of b'=' field) [ some i ↦ i + 2 | none ↦ 1 ]

unfoldable pub drop_bytes : ℕ → Text → Text
drop_bytes zero s = s
drop_bytes (suc n) [] = []
drop_bytes (suc n) (c ∷ s) = drop_bytes n s

-- The bytes before the next quotation mark; `none` if there is none, when a pointer is formed to a
-- position behind the field.
unfoldable pub until_quote : Text → Option Text
until_quote [] = none
until_quote (c ∷ s) =
    let rest = (do t ← until_quote s; some (c ∷ t)) in if c == b'"' then some [] else rest

-- The name of the file to save, for the field Content-Disposition and the user's answer.
unfoldable pub file_name : Text → Text → Option Text
unfolding name_begin drop_bytes until_quote
file_name answer field =
    if is_empty field then some answer else until_quote (drop_bytes (name_begin field) field)
