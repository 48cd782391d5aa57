-- ===== src/Handler/Http/Files/Total.antt =====
-- Server_HTTP_handler::handle: for which requests it is without undefined behaviour.
use pet_project.Base.{
  ℕ, zero, suc, ◌≡◌, ◌≢◌, ◌<◌, refl, inl, inr, Bool, true, false, Option, none, some, [], ◌∷◌, ◌++◌,
  ◌==◌, ◌&&◌, arith, Bool-cases, All, length, ltb, subst, sym,
}
use pet_project.Base.Text.{Text, lit, is_empty, back?_total, set_back}
use pet_project.Base.Int.{ℤ, half, int_ltb}
use pet_project.Database.Result.{PgResult, Container, get_result_container, get_result_single}
use pet_project.Database.Result.Container.{IsTable, get_result_container-IsTable}
use pet_project.Handler.Request.{ReqInfo}
use pet_project.Handler.Tables.{forming_tables_helper}
use pet_project.Handler.Tables.Aligned.{forming_tables_helper-AreLines}
use pet_project.Handler.Dir.{is_illegal}
use pet_project.Handler.Http.State.{Backend, HttpHandler, exec}
use pet_project.Handler.Http.Log.{trim_command, trim, insert_row, update_log_table}
use pet_project.Handler.Http.Files.{
  choose, decide, add_table, files_query, log_query, name_query, uid_query, forming_files_table,
  forming_log_table, search_file, get_file_uri, wildcard, dispatch, handle,
}
use pet_project.Handler.Http.Files.Served.{TwoColumns, Stopped, res_handle_cases, take_file_lem}

helper_total :
    (n : ℕ) (rows : Container)
    → 0 < n
    → IsTable n rows
    → rows ≢ []
    → (t : Text) × (forming_tables_helper rows ≡ some t)
helper_total zero rows h tab ne = elim h [ ]
helper_total (suc n) [] h tab ne = absurd (ne refl)
helper_total (suc n) (row ∷ rows) h tab ne =
    let (t, ws, e, _, _) = forming_tables_helper-AreLines n row rows tab in (t, e)

container_ne_nil : (res : PgResult) → get_result_container res ≢ []
unfolding get_result_container
container_ne_nil res e = cc

-- A row has a column.
abbrev pub HasColumns : PgResult → Type 0
HasColumns res = 0 < res.n_tuples → 0 < res.n_fields

given {ℓ} : {A : Type ℓ} (o : Option A) → o ≢ none → (a : A) × (o ≡ some a)
given none h = absurd (h refl)
given (some a) h = (a, refl)

add_table-ne-none :
    (doing no_rows : Text) (res : PgResult) (r : ReqInfo)
    → HasColumns res
    → add_table doing no_rows res r ≢ none
unfolding add_table
add_table-ne-none doing no_rows res r h e = elim (Bool-cases res.success) [
  | inr bad ↦ ground (arith, bad)
  | inl good ↦ elim (Bool-cases (res.n_tuples == 0)) [
    | inl none_found ↦ ground (arith, good, none_found)
    | inr found ↦
        let (t, e') =
          helper_total res.n_fields (get_result_container res) (h (ground arith))
            (get_result_container-IsTable res).0 (container_ne_nil res) in
        ground (arith, good, found, e')
  ]
]

decide-ne-none :
    (name uid : PgResult) (r : ReqInfo)
    → TwoColumns name
    → TwoColumns uid
    → decide name uid r ≢ none
unfolding decide choose Stopped
decide-ne-none name uid r two_name two_uid e = elim (res_handle_cases r name) [
  | inr (inr st) ↦ ground (arith, st.0)
  | inl (one, p) ↦ elim (res_handle_cases r uid) [
    | inr (inr st) ↦ ground (arith, p, st.0)
    | inl (one', q) ↦ ground (arith, p, q)
    | inr (inl (none', q)) ↦ ground (arith, p, q, take_file_lem r name one.1 (two_name one.1))
  ]
  | inr (inl (none', p)) ↦ elim (res_handle_cases r uid) [
    | inr (inr st) ↦ ground (arith, p, st.0)
    | inl (one', q) ↦ ground (arith, p, q, take_file_lem r uid one'.1 (two_uid one'.1))
    | inr (inl (none'', q)) ↦ ground (arith, p, q)
  ]
]

-- A text without an apostrophe, which an SQL command holds between two apostrophes.
abbrev pub IsPlain : Text → Type 0
IsPlain t = All (λ c. c ≢ b'\'') t

-- What PostgreSQL gives: the tables have columns, a search whose target does not end its text early has
-- the two that it names, and the trimming of the log table, if it succeeds, ends with a row.
pub record Answers {σ : Type 0} (b : Backend σ) : Type 0 where
  pub files_columns : (h : HttpHandler σ) → HasColumns (exec b files_query false h).0
  pub log_columns : (h : HttpHandler σ) → HasColumns (exec b log_query false h).0
  pub name_columns :
      (h : HttpHandler σ) (t : Text) → IsPlain t → TwoColumns (exec b (name_query t) false h).0
  pub uid_columns :
      (h : HttpHandler σ) (t : Text) → IsPlain t → TwoColumns (exec b (uid_query t) false h).0
  pub trim_value :
      (h : HttpHandler σ) (n : ℤ)
      → (exec b (trim_command n) true h).0.success ≡ true
      → get_result_single (exec b (trim_command n) true h).0 ≢ none

-- The log table needs no trimming, or its trimming succeeds.
abbrev pub CanTrim : {σ : Type 0} → Backend σ → HttpHandler σ → Type 0
CanTrim b h =
    int_ltb h.rows_limit h.log_table_nrows ≡ true
    → (exec b (trim_command (half h.rows_limit)) true h).0.success ≡ true

All-set_back : (c : ℕ) (t : Text) → c ≢ b'\'' → IsPlain t → IsPlain (set_back c t)
unfolding set_back
All-set_back c [] n h = tt
All-set_back c (d ∷ []) n h = (n, tt)
All-set_back c (d ∷ e ∷ t) n (p, h) = (p, All-set_back c (e ∷ t) n h)

wildcard-IsPlain : (last : ℕ) (t : Text) → IsPlain t → IsPlain (wildcard last t)
unfolding wildcard
wildcard-IsPlain last t h = elim (Bool-cases (ltb 1 (length t) && last == b'*')) [
  | inl y ↦ rw y (All-set_back b'%' t (λ e. omega (arith, e)) h)
  | inr n ↦ rw n h
]

not_empty : (t : Text) → is_empty t ≡ false → t ≢ []
unfolding is_empty
not_empty [] h e = cc
not_empty (a ∷ t) h e = cc

module _ {σ : Type 0} (b : Backend σ) (a : Answers b) where
  trim-ne-none : (h : HttpHandler σ) → CanTrim b h → trim b h ≢ none
  unfolding trim
  trim-ne-none h can e = elim (Bool-cases (int_ltb h.rows_limit h.log_table_nrows)) [
    | inr n ↦ ground (arith, n)
    | inl y ↦
        let (s, q) =
          given (get_result_single (exec b (trim_command (half h.rows_limit)) true h).0)
            (a.trim_value h (half h.rows_limit) (can y)) in
        ground (arith, q, y)
  ]

  files-ne-none : (h : HttpHandler σ) (r : ReqInfo) → forming_files_table b h r ≢ none
  unfolding forming_files_table
  files-ne-none h r e =
      add_table-ne-none (lit " error while forming files table: ")
        (lit "No files available at that moment\n") (exec b files_query false h).0 r
        (a.files_columns h) (ground arith)

  log-ne-none : (h : HttpHandler σ) (r : ReqInfo) → forming_log_table b h r ≢ none
  unfolding forming_log_table
  log-ne-none h r e =
      add_table-ne-none (lit " error while forming log table: ")
        (r.result ++ lit "Log table have no records at that moment\n") (exec b log_query false h).0
        r (a.log_columns h) (ground arith)

  search-ne-none : (h : HttpHandler σ) (r : ReqInfo) → IsPlain r.target → search_file b h r ≢ none
  unfolding search_file
  search-ne-none h r plain e =
      let h1 : HttpHandler σ = (exec b (name_query r.target) false h).1 in
      let (r', q) = given _ (
        decide-ne-none (exec b (name_query r.target) false h).0
          (exec b (uid_query r.target) false h1).0 r (a.name_columns h r.target plain)
          (a.uid_columns h1 r.target plain)) in
      ground (arith, q)

  uri-ne-none :
      (h : HttpHandler σ) (r : ReqInfo)
      → r.target ≢ []
      → IsPlain r.target
      → get_file_uri b h r ≢ none
  unfolding get_file_uri
  uri-ne-none h r ne plain e =
      let (last, q) = back?_total r.target ne in
      elim (Bool-cases (is_illegal last r.target)) [
        | inl bad ↦ ground (arith, q, bad)
        | inr good ↦
            search-ne-none h (record r { target = wildcard last r.target })
              (wildcard-IsPlain last r.target plain) (ground (arith, q, good))
      ]

  dispatch-ne-none : (h : HttpHandler σ) (r : ReqInfo) → IsPlain r.target → dispatch b h r ≢ none
  unfolding dispatch
  dispatch-ne-none h r plain e =
      let (s, es) = given (forming_files_table b h r) (files-ne-none h r) in
      let (t, et) = given (forming_log_table b s.0 s.1) (log-ne-none s.0 s.1) in
      let (u, eu) = given (forming_log_table b h r) (log-ne-none h r) in
      elim (Bool-cases (is_empty r.target)) [
        | inl empty ↦ ground (arith, es, et, empty)
        | inr full ↦
            let (v, ev) =
              given (get_file_uri b h r) (uri-ne-none h r (not_empty r.target full) plain) in
            ground (arith, es, et, eu, ev, full)
      ]

  insert_row-target : (h : HttpHandler σ) (r : ReqInfo) → (insert_row b h r).1.target ≡ r.target
  unfolding insert_row
  insert_row-target h r = ground arith

  -- With a database that gives what PostgreSQL does, a request whose target has no apostrophe is
  -- handled without undefined behaviour, and handling ends with an answer, whatever else is in the
  -- state of the handler and in the vector, if the log table needs no trimming or its trimming
  -- succeeds.
  pub handle_total :
      (h : HttpHandler σ) (r : ReqInfo)
      → IsPlain r.target
      → CanTrim b h
      → (file : Bool) × (h' : HttpHandler σ) × (r' : ReqInfo) × (handle b h r ≡ some (file, h', r'))
  unfolding handle update_log_table
  handle_total h r plain can =
      let (h1, e1) = given (trim b h) (trim-ne-none h can) in
      let s : HttpHandler σ × ReqInfo = insert_row b h1 r in
      let (x, ex) =
        given (dispatch b s.0 s.1)
          (dispatch-ne-none s.0 s.1 (subst IsPlain (sym (insert_row-target h1 r)) plain)) in
      (x.0, x.1, x.2, ground (arith, e1, ex))
