-- ===== src/Parser/Massives/Validate.antt =====
-- Parser::validate_parsed on a parser that holds its arrays.
use pet_project.Base.{
  ℕ, suc, ◌+◌, ◌≡◌, refl, inl, inr, Bool, true, false, Option, none, some, List, [], ◌∷◌, ◌++◌,
  arith, length, get_elem?, Bool-cases, ◌↔◌, ltb, length-append, ap, sym, ◌∙◌, append-nil,
  if◌then◌else◌,
}
use Prim.Native.Nat.add
use pet_project.Base.Text.{Text, text_eq, text_eq_iff}
use pet_project.Parser.Massives.{
  Array, live, null, dangling, Parser, string_at, validate_from, validate_parsed, too_few,
}
use pet_project.Parser.Massives.Contents.{array_strings, Holds, string_at_lem}

-- The loop over keywords that read as `done ++ ks`, from behind `done`.
validate : List Text → List Text → Option (Bool × Text)
validate [] es = some (true, [])
validate (k ∷ ks) [] = none
validate (k ∷ ks) (e ∷ es) = if text_eq k e then validate ks es else some (false, e)

shift : (i j : ℕ) → suc i + j ≡ i + suc j
shift i j = omega arith

start : (i : ℕ) → i + 0 ≡ i
start i = omega arith

validate_from_lem :
    (ks es expected : List Text) (a : Array) (i : ℕ)
    → ((j : ℕ) (t : Text) → get_elem? ks j ≡ some t → string_at a (i + j) ≡ some t)
    → ((j : ℕ) → get_elem? es j ≡ get_elem? expected (i + j))
    → validate_from i (length ks) a expected ≡ validate ks es
unfolding validate_from validate
validate_from_lem [] es expected a i hk he = refl
validate_from_lem (k ∷ ks) [] expected a i hk he = ground (arith, hk 0 k refl, he 0, start i)
validate_from_lem (k ∷ ks) (e ∷ es) expected a i hk he =
    let rest =
      validate_from_lem ks es expected a (suc i) (λ j t g. rw (shift i j) (hk (suc j) t g))
        (λ j. rw (shift i j) (he (suc j))) in
    ground (arith, hk 0 k refl, he 0, start i, rest)

-- The loop passes exactly when the keywords are a prefix of the table.
validate_pass :
    (ks es : List Text)
    → (validate ks es ≡ some (true, [])) ↔ ((rest : List Text) × (es ≡ ks ++ rest))
unfolding validate
validate_pass [] es = (λ h. (es, refl), λ h. refl)
validate_pass (k ∷ ks) [] = (λ h. absurd (ground arith), λ h. absurd (ground (arith, h.1)))
validate_pass (k ∷ ks) (e ∷ es) = (
  λ h.
      let (rest, p) = (validate_pass ks es).0 (ground arith) in
      (rest, ground (arith, text_eq_iff k e)),
  λ h. ground (arith, h.1, text_eq_iff k e, (validate_pass ks es).1 (h.0, ground arith)),
)

-- The loop reads behind the table exactly when the table is a proper prefix of the keywords.
validate-none :
    (ks es : List Text)
    → (validate ks es ≡ none) ↔ ((k : Text) × (rest : List Text) × (ks ≡ es ++ k ∷ rest))
unfolding validate
validate-none [] [] = (λ h. absurd (ground arith), λ h. absurd (ground (arith, h.2)))
validate-none [] (e ∷ es) = (λ h. absurd (ground arith), λ h. absurd (ground (arith, h.2)))
validate-none (k ∷ ks) [] = (λ h. (k, ks, refl), λ h. refl)
validate-none (k ∷ ks) (e ∷ es) = (
  λ h.
      let (x, rest, p) = (validate-none ks es).0 (ground arith) in
      (x, rest, ground (arith, text_eq_iff k e)),
  λ h. ground (arith, h.2, text_eq_iff k e, (validate-none ks es).1 (h.0, h.1, ground arith)),
)

prefix_full :
    (ks es rest : List Text) → es ≡ ks ++ rest → ltb (length ks) (length es) ≡ false → ks ≡ es
prefix_full ks es [] e h = sym (e ∙ append-nil ks)
prefix_full ks es (x ∷ rest) e h = absurd (ground (arith, ap length e, length-append ks (x ∷ rest)))

not_shorter :
    (ks es : List Text) (k : Text) (rest : List Text)
    → ks ≡ es ++ k ∷ rest
    → ltb (length ks) (length es) ≡ false
not_shorter ks es k rest e = ground (arith, ap length e, length-append es (k ∷ rest))

module _ (p : Parser) (ks vs es : List Text) (h : Holds p ks vs) where
  keyword_at :
      (a : Array) (j : ℕ) (t : Text)
      → array_strings a ≡ some ks
      → get_elem? ks j ≡ some t
      → string_at a (0 + j) ≡ some t
  keyword_at (live bs) j t e g = rw (add.zero j) (string_at_lem bs ks j t e g)
  keyword_at null j t e g = cc
  keyword_at dangling j t e g = cc

  validate_parsed-eq :
      validate_parsed (length es) es p
      ≡ (if ltb (length ks) (length es) then some (false, too_few) else validate ks es)
  unfolding validate_parsed
  validate_parsed-eq = rw (
    ← h.keywords_size,
    validate_from_lem ks es es p.keywords 0 (λ j t g. keyword_at p.keywords j t h.keywords_read g)
        (λ j. rw (add.zero j)),
  )

  -- A parser that holds its arrays passes the check against a table exactly when its keywords are
  -- the table's, in its order; the message is then empty.
  pub validate_parsed_exact : (validate_parsed (length es) es p ≡ some (true, [])) ↔ (ks ≡ es)
  validate_parsed_exact = rw validate_parsed-eq (elim (Bool-cases (ltb (length ks) (length es))) [
    | inl short ↦
        (λ e. absurd (ground (arith, short)), λ e. absurd (ground (arith, short, ap length e)))
    | inr long ↦ rw long (
      λ e. let (rest, q) = (validate_pass ks es).0 e in prefix_full ks es rest q long,
      λ e. (validate_pass ks es).1 ([], sym e ∙ sym (append-nil ks)),
    )
  ])

  -- The check has undefined behaviour, a read behind the table, exactly when the keywords begin with
  -- the whole table and go on.
  pub validate_parsed_overrun :
      (validate_parsed (length es) es p ≡ none)
      ↔ ((k : Text) × (rest : List Text) × (ks ≡ es ++ k ∷ rest))
  validate_parsed_overrun = rw validate_parsed-eq (elim (Bool-cases (ltb (length ks) (length es))) [
    | inl short ↦ (
      λ e. absurd (ground (arith, short)),
      λ e. absurd (ground (arith, short, not_shorter ks es e.0 e.1 e.2)),
    )
    | inr long ↦ rw long (validate-none ks es)
  ])
