-- ===== src/Handler/Http/Files/Served.antt =====
-- Which file a request gets from the database handler.
use pet_project.Base.{
  ◌≡◌, ◌≢◌, ◌<◌, ◌↔◌, ◌⊎◌, refl, inl, inr, true, some, [], ◌∷◌, ◌++◌, ◌==◌, arith, Bool-cases, ap,
  sym, ◌∙◌,
}
use pet_project.Base.Text.{Text}
use pet_project.Database.Result.{PgResult, field_value}
use pet_project.Database.Result.Container.{cell_at_container}
use pet_project.Handler.Request.{ReqInfo}
use pet_project.Handler.Http.Files.{
  result_is_ok, not_found, res_handle, several_match, take_file, choose, decide, stops,
}

-- The search succeeded and found one row, or none.
abbrev pub OneRow : PgResult → Type 0
OneRow res = (res.success ≡ true) × (res.n_tuples ≡ 1)

abbrev pub NoRow : PgResult → Type 0
NoRow res = (res.success ≡ true) × (res.n_tuples ≡ 0)

-- The vector with the file of the first row: its name is the target, its folder and name the path.
abbrev pub served : PgResult → ReqInfo → ReqInfo
served res r = record r {
  target = field_value res.result 0 0;
  result = field_value res.result 0 1 ++ (b'/' ∷ field_value res.result 0 0);
}

pub take_file_lem :
    (r : ReqInfo) (res : PgResult)
    → res.n_tuples ≡ 1
    → 1 < res.n_fields
    → take_file r res ≡ some (served res r)
unfolding take_file
take_file_lem r res one two = ground (
  arith,
  cell_at_container res 0 0 (omega arith) (omega arith),
  cell_at_container res 0 1 (omega arith) two,
)

pub slash_ne_nil : (s t : Text) → s ++ (b'/' ∷ t) ≢ []
slash_ne_nil [] t e = cc
slash_ne_nil (a ∷ s) t e = cc

-- A search that found neither one row nor none ends the request, with no file.
unfoldable pub Stopped : PgResult → ReqInfo → Type 0
Stopped res r =
    (stops (res_handle r res).0 ≡ true)
    × ((res_handle r res).1.result ≡ r.result)
    × (¬ OneRow res)
    × (¬ NoRow res)

pub res_handle_cases :
    (r : ReqInfo) (res : PgResult)
    → (OneRow res × (res_handle r res ≡ (result_is_ok, r)))
      ⊎ ((NoRow res × (res_handle r res ≡ (not_found, r))) ⊎ Stopped res r)
unfolding res_handle Stopped
res_handle_cases r res = elim (Bool-cases res.success) [
  | inr bad ↦ inr (inr (ground (arith, bad), ground (arith, bad), λ o. cc (o.0), λ o. cc (o.0)))
  | inl good ↦ elim (Bool-cases (res.n_tuples == 1)) [
    | inl one ↦ inl ((good, ground arith), ground (arith, good))
    | inr other ↦ elim (Bool-cases (res.n_tuples == 0)) [
      | inl zero_rows ↦ inr (inl ((good, ground arith), ground (arith, good)))
      | inr many ↦ inr (
          inr (
            ground (arith, good),
            ground (arith, good),
            λ o. ground (arith, o.1),
            λ o. ground (arith, o.1),
          ))
    ]
  ]
]

abbrev pub TwoColumns : PgResult → Type 0
TwoColumns res = res.n_tuples ≡ 1 → 1 < res.n_fields

several_keeps : (r : ReqInfo) → (several_match r).result ≡ r.result
unfolding several_match
several_keeps r = refl

-- A path is given exactly when one search finds one row and the other none: that row's.
abbrev pub GivesUnique : PgResult → PgResult → ReqInfo → ReqInfo → Type 0
GivesUnique name uid r r' =
    ((r'.result ≢ []) ↔ ((OneRow name × NoRow uid) ⊎ (NoRow name × OneRow uid)))
    × (OneRow name → NoRow uid → r' ≡ served name r)
    × (NoRow name → OneRow uid → r' ≡ served uid r)

one_or_none : (res : PgResult) → OneRow res → ¬ NoRow res
one_or_none res o n = omega (arith, o.1, n.1)

module _ (name uid : PgResult) (r r' : ReqInfo) where
  by_name : OneRow name → NoRow uid → r' ≡ served name r → GivesUnique name uid r r'
  by_name o n e = (
    (λ _. inl (o, n), λ _ q. slash_ne_nil _ _ (ap (λ (x : ReqInfo). x.result) (sym e) ∙ q)),
    λ _ _. e,
    λ n' _. absurd (one_or_none name o n'),
  )

  by_uid : NoRow name → OneRow uid → r' ≡ served uid r → GivesUnique name uid r r'
  by_uid n o e = (
    (λ _. inr (n, o), λ _ q. slash_ne_nil _ _ (ap (λ (x : ReqInfo). x.result) (sym e) ∙ q)),
    λ o' _. absurd (one_or_none name o' n),
    λ _ _. e,
  )

  no_file :
      r'.result ≡ []
      → ¬ (OneRow name × NoRow uid)
      → ¬ (NoRow name × OneRow uid)
      → GivesUnique name uid r r'
  no_file e a b = (
    (λ ne. absurd (ne e), elim [ inl x ↦ absurd (a x) | inr x ↦ absurd (b x) ]),
    λ o n. absurd (a (o, n)),
    λ n o. absurd (b (n, o)),
  )

-- The searches by name and by number, whose one row has the two columns of the query, decide about
-- the file: a path is given exactly when one of them finds one row and the other finds none, and it
-- is then the path of that row.
pub decide-GivesUnique :
    (name uid : PgResult) (r r' : ReqInfo)
    → TwoColumns name
    → TwoColumns uid
    → r.result ≡ []
    → decide name uid r ≡ some r'
    → GivesUnique name uid r r'
unfolding decide choose Stopped
decide-GivesUnique name uid r r' two_name two_uid empty e = elim (res_handle_cases r name) [
  | inl (one, p) ↦ elim (res_handle_cases r uid) [
    | inl (one', q) ↦
        no_file name uid r r' (ground (arith, p, q, several_keeps r))
          (λ x. one_or_none uid one' x.1) (λ x. one_or_none name one x.0)
    | inr (inl (none', q)) ↦
        by_name name uid r r' one none'
          (ground (arith, p, q, take_file_lem r name one.1 (two_name one.1)))
    | inr (inr st) ↦
        no_file name uid r r' (ground (arith, p, st.0, st.1)) (λ x. st.3 x.1) (λ x. st.2 x.1)
  ]
  | inr (inl (none', p)) ↦ elim (res_handle_cases r uid) [
    | inl (one', q) ↦
        by_uid name uid r r' none' one'
          (ground (arith, p, q, take_file_lem r uid one'.1 (two_uid one'.1)))
    | inr (inl (none'', q)) ↦
        no_file name uid r r' (ground (arith, p, q)) (λ x. one_or_none name x.0 none')
          (λ x. one_or_none uid x.1 none'')
    | inr (inr st) ↦
        no_file name uid r r' (ground (arith, p, st.0, st.1)) (λ x. st.3 x.1) (λ x. st.2 x.1)
  ]
  | inr (inr st) ↦
      no_file name uid r r' (ground (arith, st.0, st.1)) (λ x. st.2 x.0) (λ x. st.3 x.0)
]
