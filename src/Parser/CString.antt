-- ===== src/Parser/CString.antt =====
-- C strings in buffers of bytes, as `Parser` copies them.
use pet_project.Base.{
  ℕ, zero, suc, ◌≡◌, refl, Option, none, some, [], ◌∷◌, arith, length, ◌==◌, if◌then◌else◌,
  Option-cases, inl, inr, ◌>>=◌,
}
use pet_project.Base.Text.{Text}

-- strncpy(new char[n], s, n): the `n` bytes of the buffer.
unfoldable pub strncpy : ℕ → Text → Text
strncpy zero s = []
strncpy (suc n) [] = 0 ∷ strncpy n []
strncpy (suc n) (c ∷ s) = c ∷ strncpy n (if c == 0 then [] else s)

-- What reading a buffer up to its terminator gives; `none` is a read behind its end.
unfoldable pub c_string : Text → Option Text
c_string [] = none
c_string (c ∷ b) = if c == 0 then some [] else (do s ← c_string b; some (c ∷ s))

-- What `s.c_str()` shows of a string: all before its first zero byte.
unfoldable pub until_nul : Text → Text
until_nul [] = []
until_nul (c ∷ s) = if c == 0 then [] else c ∷ until_nul s

-- A buffer one larger than the string holds all that `c_str()` shows, and its terminator.
pub c_string-strncpy : (s : Text) → c_string (strncpy (suc (length s)) s) ≡ some (until_nul s)
unfolding c_string strncpy until_nul
c_string-strncpy [] = refl
c_string-strncpy (c ∷ s) = ground (arith, c_string-strncpy s)

-- What was read holds no zero byte.
pub until_nul-c_string : (b : Text) {s : Text} → c_string b ≡ some s → until_nul s ≡ s
unfolding c_string until_nul
until_nul-c_string [] h = cc
until_nul-c_string (c ∷ b) {s} h = elim (Option-cases (c_string b)) [
  | inl e ↦ ground arith
  | inr (t, e) ↦ ground (arith, until_nul-c_string b {s = t})
]
