-- ===== src/Database/Result/Ownership.antt =====
-- Who owns a `PGresult`, and when a PG_result counts as a success.
use pet_project.Base.{
  ℕ, ◌≡◌, ◌≢◌, ◌↔◌, ◌≤◌, refl, inl, inr, true, false, Option, none, some, List, [], ◌∷◌, arith,
  Bool-cases, ◌++◌, append-nil, All,
}
use pet_project.Base.Text.{Text, text_eq, text_eq_iff}
use pet_project.Base.Int.{pos}
use pet_project.Base.Decimal.{atoi_letter}
use pet_project.Database.Result.{
  Pgresult, PgResult, status_of, nfields_of, ntuples_of, make, move_assign, move_construct,
  not_succeed, found_in, get_result_command_tag,
}

-- What every PG_result satisfies: it never claims more rows and columns than its result has, and
-- none when the command failed.
pub record IsConsistent (r : PgResult) : Type 0 where
  pub failed_empty : r.success ≡ false → (r.n_fields ≡ 0) × (r.n_tuples ≡ 0)
  pub fields_counted : r.success ≡ true → r.n_fields ≡ nfields_of r.result
  pub tuples_counted : r.success ≡ true → r.n_tuples ≡ ntuples_of r.result

found_in_lem : (ts : List Text) (s : Text) → (found_in ts s ≡ false) ↔ All (λ t. t ≢ s) ts
unfolding found_in
found_in_lem [] s = (λ h. tt, λ h. refl)
found_in_lem (t ∷ ts) s = elim (Bool-cases (text_eq t s)) [
  | inl e ↦ (λ h. absurd (ground (arith, e)), λ h. absurd (h.0 ((text_eq_iff t s).0 e)))
  | inr e ↦
      rw (e, found_in)
        (
          λ h. (λ p. cc ((text_eq_iff t s).1 p), (found_in_lem ts s).0 h),
          λ h. (found_in_lem ts s).1 h.1,
        )
]

-- A new result is consistent, and it is a success exactly when the status of the command is none of
-- the four failures.
pub make-IsConsistent :
    (res : Option Pgresult) (name : Text)
    → IsConsistent (make res name)
      × (((make res name).success ≡ true) ↔ All (λ t. t ≢ status_of res) not_succeed)
unfolding make
make-IsConsistent res name = elim (Bool-cases (found_in not_succeed (status_of res))) [
  | inl e ↦
      rw (e, make)
        (
          record {
            failed_empty = λ h. (refl, refl);
            fields_counted = λ h. cc;
            tuples_counted = λ h. cc;
          },
          (λ h. cc, λ h. cc ((found_in_lem not_succeed (status_of res)).1 h)),
        )
  | inr e ↦
      rw (e, make)
        (
          record { failed_empty = λ h. cc; fields_counted = λ h. refl; tuples_counted = λ h. refl },
          (λ h. (found_in_lem not_succeed (status_of res)).0 e, λ h. refl),
        )
]

-- A move construction hands the `PGresult` and the counts over, leaves the source without one, and
-- keeps both objects consistent: so the two destructors clear it once.
pub move_construct-IsConsistent :
    (other : PgResult)
    → IsConsistent other
    → let (this, source) = move_construct other in
      (this ≡ other) × (source.result ≡ none) × IsConsistent this × IsConsistent source
unfolding move_construct
move_construct-IsConsistent other h = (
  refl,
  refl,
  h,
  record { failed_empty = λ e. (refl, refl); fields_counted = λ e. cc; tuples_counted = λ e. cc },
)

abbrev pub to_list : Option Pgresult → List Pgresult
to_list none = []
to_list (some r) = r ∷ []

-- The results that the destructors of two objects will clear.
abbrev pub held : PgResult × PgResult → List Pgresult
held (a, b) = to_list a.result ++ to_list b.result

-- After an assignment between two objects only the result of the source is still held, by the
-- destination; one that the destination held before is cleared by nobody.
pub held-move_assign :
    (this rhs : PgResult) → held (move_assign false this rhs) ≡ to_list rhs.result
unfolding move_assign
held-move_assign this rhs = append-nil (to_list rhs.result)

-- A command tag such as "INSERT 0 1" or "DELETE 3", which begins with a letter, gives 0 whatever
-- its count is.
pub get_result_command_tag_zero :
    (r : PgResult) (p : Pgresult) (c : ℕ) (s : Text)
    → r.result ≡ some p
    → p.cmd_status ≡ c ∷ s
    → b'A' ≤ c
    → get_result_command_tag r ≡ pos 0
unfolding get_result_command_tag
get_result_command_tag_zero r p c s h e le = ground (arith, atoi_letter c s)
