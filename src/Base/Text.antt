-- ===== src/Base/Text.antt =====
-- A `std::string` as the list of its bytes, with the operations of the standard library that the
-- program calls. `lit` is a string literal; it stays shut, so a proof compares literals by lemmas.
use Prim.Native.Char.{code}
use Prim.Native.String.{String}
use Prim.Native.Nat.{ℕ}
use mathlib.Core.Path.{◌≡◌, refl, ap}
use mathlib.Core.Logic.{◌↔◌, inl, inr, ◌≢◌}
use mathlib.Core.Bool.{Bool, true, false, ◌&&◌, ◌||◌}
use mathlib.Core.List.{List, [], ◌∷◌, ◌++◌}
use mathlib.Core.Option.{Option, none, some}
use native.Mathlib.Omega.{arith}
use pet_project.Base.Tests.{◌==◌, Bool-cases}
use pet_project.Base.Lists.{replicate}

abbrev pub Text : Type 0
Text = List ℕ

unfoldable pub lit : String → Text
lit String.[] = []
lit (String.◌∷◌ c s) = code c ∷ lit s

-- operator==
unfoldable pub text_eq : Text → Text → Bool
text_eq [] [] = true
text_eq [] (b ∷ t) = false
text_eq (a ∷ s) [] = false
text_eq (a ∷ s) (b ∷ t) = (a == b) && text_eq s t

pub text_eq_iff : (s t : Text) → (text_eq s t ≡ true) ↔ (s ≡ t)
unfolding text_eq
text_eq_iff [] [] = (λ _. refl, λ _. refl)
text_eq_iff [] (b ∷ t) = (λ h. cc, λ h. cc)
text_eq_iff (a ∷ s) [] = (λ h. cc, λ h. cc)
text_eq_iff (a ∷ s) (b ∷ t) = ground (arith, text_eq_iff s t)

-- s.starts_with(p)
unfoldable pub starts_with : Text → Text → Bool
starts_with s [] = true
starts_with [] (b ∷ p) = false
starts_with (a ∷ s) (b ∷ p) = (a == b) && starts_with s p

pub starts_with_lem : (s p : Text) → starts_with s p ≡ true → (t : Text) × (s ≡ p ++ t)
unfolding starts_with
starts_with_lem s [] h = (s, refl)
starts_with_lem [] (b ∷ p) h = cc
starts_with_lem (a ∷ s) (b ∷ p) h = ground (arith, starts_with_lem s p)

pub starts_with-append : (p t : Text) → starts_with (p ++ t) p ≡ true
unfolding starts_with
starts_with-append [] t = refl
starts_with-append (b ∷ p) t = ground (arith, starts_with-append p t)

or_true : (b : Bool) → (b || true) ≡ true
or_true true = refl
or_true false = refl

-- s.find(p) != npos
unfoldable pub contains : Text → Text → Bool
unfolding starts_with
contains [] p = starts_with [] p
contains (a ∷ s) p = starts_with (a ∷ s) p || contains s p

-- s.back(); undefined on the empty string
unfoldable pub back? : Text → Option ℕ
back? [] = none
back? (a ∷ []) = some a
back? (a ∷ b ∷ s) = back? (b ∷ s)

-- s.back() = c
unfoldable pub set_back : ℕ → Text → Text
set_back c [] = []
set_back c (a ∷ []) = c ∷ []
set_back c (a ∷ b ∷ s) = a ∷ set_back c (b ∷ s)

-- s.resize(s.size() - 1)
unfoldable pub drop_back : Text → Text
drop_back [] = []
drop_back (a ∷ []) = []
drop_back (a ∷ b ∷ s) = a ∷ drop_back (b ∷ s)

-- std::string(n, ' ')
abbrev pub spaces : ℕ → Text
spaces n = replicate n b' '

unfoldable pub is_empty : Text → Bool
is_empty [] = true
is_empty (a ∷ s) = false

pub drop_back_lem : (s : Text) (c : ℕ) → back? s ≡ some c → s ≡ drop_back s ++ c ∷ []
unfolding back? drop_back
drop_back_lem [] c h = cc
drop_back_lem (a ∷ []) c h = ground arith
drop_back_lem (a ∷ b ∷ s) c h = ap (λ t. a ∷ t) (drop_back_lem (b ∷ s) c h)

pub back?-append : (s : Text) (c : ℕ) → back? (s ++ c ∷ []) ≡ some c
unfolding back?
back?-append [] c = refl
back?-append (a ∷ []) c = refl
back?-append (a ∷ b ∷ s) c = back?-append (b ∷ s) c

pub drop_back-append : (s : Text) (c : ℕ) → drop_back (s ++ c ∷ []) ≡ s
unfolding drop_back
drop_back-append [] c = refl
drop_back-append (a ∷ []) c = refl
drop_back-append (a ∷ b ∷ s) c = ap (λ t. a ∷ t) (drop_back-append (b ∷ s) c)

-- The text `p` occurs in `s`.
abbrev pub Occurs : Text → Text → Type 0
Occurs s p = (before : Text) × (after : Text) × (s ≡ before ++ (p ++ after))

pub contains-Occurs : (s p : Text) → contains s p ≡ true → Occurs s p
unfolding contains
contains-Occurs [] p h = let (t, e) = starts_with_lem [] p h in ([], t, e)
contains-Occurs (a ∷ s) p h = elim (Bool-cases (starts_with (a ∷ s) p)) [
  | inl y ↦ let (t, e) = starts_with_lem (a ∷ s) p y in ([], t, e)
  | inr n ↦
      let (x, y, e) = contains-Occurs s p (rw (n, contains) at h) in (a ∷ x, y, ap (λ t. a ∷ t) e)
]

pub contains-append : (before p after : Text) → contains (before ++ (p ++ after)) p ≡ true
unfolding contains
contains-append [] p after = go (p ++ after) (starts_with-append p after)
  where
    go : (s : Text) → starts_with s p ≡ true → contains s p ≡ true
    go [] h = h
    go (a ∷ s) h = rw h
contains-append (a ∷ before) p after =
    rw (contains-append before p after) (or_true (starts_with (a ∷ before ++ (p ++ after)) p))

pub back?_total : (s : Text) → s ≢ [] → (c : ℕ) × (back? s ≡ some c)
unfolding back?
back?_total [] h = absurd (h refl)
back?_total (a ∷ []) h = (a, refl)
back?_total (a ∷ b ∷ s) h = back?_total (b ∷ s) (λ e. cc)
