-- ===== src/Base/Decimal.antt =====
-- std::to_string and std::atoi. A text whose value is out of range of `int` is undefined in C; here
-- its value is the integer itself.
use Prim.Native.Nat.{ℕ, zero, suc, ◌+◌, ◌-◌, ◌*◌, ◌/◌, ◌%◌, ◌≤◌}
use mathlib.Core.Path.{◌≡◌, refl}
use mathlib.Core.Bool.{Bool, ◌&&◌, ◌||◌}
use mathlib.Core.List.{[], ◌∷◌}
use native.Mathlib.Omega.{arith}
use pet_project.Base.Tests.{ltb, leb, ◌==◌, if◌then◌else◌}
use pet_project.Base.Text.{Text}
use pet_project.Base.Int.{ℤ, pos, negsuc, neg}

-- The digits of `n` in front of `acc`, the last digit first; one round for each digit.
unfoldable pub digits_onto : ℕ → ℕ → Text → Text
digits_onto zero n acc = acc
digits_onto (suc fuel) n acc =
    let rest = digits_onto fuel (n / 10) ((n % 10 + b'0') ∷ acc) in
    if ltb n 10 then (n + b'0') ∷ acc else rest

unfoldable pub to_string : ℕ → Text
unfolding digits_onto
to_string n = digits_onto (suc n) n []

unfoldable pub int_to_string : ℤ → Text
unfolding to_string
int_to_string (pos n) = to_string n
int_to_string (negsuc n) = b'-' ∷ to_string (suc n)

-- std::isspace in the C locale
abbrev pub is_space : ℕ → Bool
is_space c = c == b' ' || (leb 9 c && leb c 13)

abbrev is_digit : ℕ → Bool
is_digit c = leb b'0' c && leb c b'9'

unfoldable pub digits_value : ℕ → Text → ℕ
digits_value acc [] = acc
digits_value acc (c ∷ s) =
    let rest = digits_value (acc * 10 + (c - b'0')) s in if is_digit c then rest else acc

unfoldable pub atoi : Text → ℤ
unfolding digits_value
atoi [] = pos 0
atoi (c ∷ s) =
    let rest = atoi s in
    if is_space c
    then rest
    else if c == b'-'
    then neg (digits_value 0 s)
    else if c == b'+'
    then pos (digits_value 0 s)
    else pos (digits_value 0 (c ∷ s))

-- A text that begins with a letter has the value 0.
pub atoi_letter : (c : ℕ) (s : Text) → b'A' ≤ c → atoi (c ∷ s) ≡ pos 0
unfolding atoi digits_value
atoi_letter c s h = ground arith

atoi_test : atoi (b' ' ∷ b'-' ∷ b'4' ∷ b'2' ∷ b'x' ∷ []) ≡ negsuc 41
unfolding atoi
atoi_test = refl

to_string_test : to_string 1040 ≡ b'1' ∷ b'0' ∷ b'4' ∷ b'0' ∷ []
unfolding to_string
to_string_test = refl
