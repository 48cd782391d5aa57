-- ===== src/Handler/Dir/Digits.antt =====
-- Server_dir_handler::number_of_digits and std::to_string.
use pet_project.Base.{ℕ, zero, suc, ◌+◌, ◌/◌, ◌%◌, ◌≤◌, ◌<◌, ◌≡◌, refl, [], ◌∷◌, arith, length, sym}
use pet_project.Base.Text.{Text}
use pet_project.Base.Decimal.{digits_onto, to_string}
use pet_project.Handler.Dir.{digits_loop, number_of_digits}

length-digits_onto :
    (f k n : ℕ) (acc : Text)
    → n < f
    → length acc ≡ k
    → length (digits_onto f n acc) ≡ digits_loop f k n
unfolding digits_onto digits_loop
length-digits_onto zero k n acc h e = elim h [ ]
length-digits_onto (suc f) k n acc h e = ground (
  arith,
  λ (p : n / 10 < f). length-digits_onto f (k + 1) (n / 10) ((n % 10 + b'0') ∷ acc) p (omega arith),
)

-- The count is the number of digits that std::to_string writes, for every number.
pub number_of_digits-to_string : (n : ℕ) → number_of_digits n ≡ length (to_string n)
unfolding number_of_digits to_string
number_of_digits-to_string n = sym (length-digits_onto (suc n) 0 n [] (omega arith) refl)

digits_loop_ge : (f k n : ℕ) → k ≤ digits_loop f k n
unfolding digits_loop
digits_loop_ge zero k n = omega arith
digits_loop_ge (suc f) k n = ground (arith, digits_loop_ge f (k + 1) (n / 10))

digits_loop_mono : (f g k m n : ℕ) → m ≤ n → m < f → n < g → digits_loop f k m ≤ digits_loop g k n
unfolding digits_loop
digits_loop_mono zero g k m n le hf hg = elim hf [ ]
digits_loop_mono (suc f) zero k m n le hf hg = elim hg [ ]
digits_loop_mono (suc f) (suc g) k m n le hf hg =
    ground
      (arith, digits_loop_mono f g (k + 1) (m / 10) (n / 10), digits_loop_ge g (k + 1) (n / 10))

pub number_of_digits_mono : (m n : ℕ) → m ≤ n → number_of_digits m ≤ number_of_digits n
unfolding number_of_digits
number_of_digits_mono m n h = digits_loop_mono (suc m) (suc n) 0 m n h (omega arith) (omega arith)
