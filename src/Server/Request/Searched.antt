-- ===== src/Server/Request/Searched.antt =====
-- What a search of the database does to a request for a file, and the error that it leaves.
use pet_project.Base.{
  ℕ, ◌+◌, ◌≡◌, ◌⊎◌, refl, inl, inr, true, false, not, some, [], ◌++◌, ltb, ◌==◌, arith,
  if◌then◌else◌, Bool-cases, append_assoc,
}
use pet_project.Base.Text.{Text, lit, starts_with}
use pet_project.Database.Result.{PgResult}
use pet_project.Handler.Request.{ReqInfo}
use pet_project.Handler.Http.Files.{
  Handled, db_error, several_files, result_is_ok, not_found, several_match, several, restore_star,
  res_handle, stops, choose, decide,
}
use pet_project.Handler.Http.Files.Served.{OneRow, NoRow, res_handle_cases, Stopped}
use pet_project.Server.Request.{error_status}

-- No error yet, or one of the database, as update_log_table leaves it.
abbrev pub IsClean : Text → Type 0
IsClean e = (e ≡ []) ⊎ ((t : Text) × (e ≡ lit "Database " ++ t))

database_status : (t : Text) → error_status (lit "Database " ++ t) ≡ 500
unfolding error_status starts_with lit
database_status t = refl

pub several_status : (t : Text) → error_status (several t) ≡ 300
unfolding error_status starts_with lit
several_status t = refl

pub not_found_status : (t : Text) → error_status (lit "File " ++ t) ≡ 404
unfolding error_status starts_with lit
not_found_status t = refl

clean_status : (e t : Text) → IsClean e → error_status (e ++ (lit "Database " ++ t)) ≡ 500
clean_status e t (inl q) = rw q (database_status t)
clean_status e t (inr (u, q)) =
    rw (q, append_assoc (lit "Database ") u (lit "Database " ++ t))
      (database_status (u ++ (lit "Database " ++ t)))

-- A search that failed, or found several rows.
pub failed_search :
    (r : ReqInfo) (res : PgResult)
    → IsClean r.error
    → res.success ≡ false
    → ((res_handle r res).0 ≡ db_error)
      × ((res_handle r res).1.result ≡ r.result)
      × (error_status (res_handle r res).1.error ≡ 500)
unfolding res_handle
failed_search r res c f = (ground (arith, f), ground (arith, f), rw f (clean_status r.error _ c))

pub several_search :
    (r : ReqInfo) (res : PgResult)
    → res.success ≡ true
    → ltb 1 res.n_tuples ≡ true
    → ((res_handle r res).0 ≡ several_files)
      × ((res_handle r res).1.result ≡ r.result)
      × (error_status (res_handle r res).1.error ≡ 300)
unfolding res_handle several_match
several_search r res s n = (
  ground (arith, s, n),
  ground (arith, s, n),
  ground (arith, s, n, several_status (restore_star r.target)),
)

pub decide_name_stops :
    (name uid : PgResult) (r : ReqInfo)
    → stops (res_handle r name).0 ≡ true
    → decide name uid r ≡ some (res_handle r name).1
unfolding decide
decide_name_stops name uid r s = ground (arith, s)

pub decide_uid_stops :
    (name uid : PgResult) (r : ReqInfo) (x : Handled)
    → res_handle r name ≡ (x, r)
    → stops x ≡ false
    → stops (res_handle r uid).0 ≡ true
    → decide name uid r ≡ some (res_handle r uid).1
unfolding decide
decide_uid_stops name uid r x e n s = ground (arith, e, n, s)

pub decide_chosen :
    (name uid : PgResult) (r : ReqInfo) (x y : Handled)
    → res_handle r name ≡ (x, r)
    → res_handle r uid ≡ (y, r)
    → stops x ≡ false
    → stops y ≡ false
    → decide name uid r ≡ choose x y name uid r
unfolding decide
decide_chosen name uid r x y e f n m = ground (arith, e, f, n, m)

-- The status for the results of the two searches.
abbrev pub status_for : PgResult → PgResult → ℕ
status_for name uid =
    if not name.success
    then 500
    else if ltb 1 name.n_tuples
    then 300
    else if not uid.success
    then 500
    else if ltb 1 uid.n_tuples
    then 300
    else if name.n_tuples + uid.n_tuples == 0
    then 404
    else if name.n_tuples + uid.n_tuples == 1
    then 200
    else 300

-- A result is of a failed search, of one that found several rows, one row, or none.
pub search_cases :
    (r : ReqInfo) (res : PgResult)
    → (res.success ≡ false)
      ⊎ (((res.success ≡ true) × (ltb 1 res.n_tuples ≡ true))
          ⊎ ((OneRow res × (res_handle r res ≡ (result_is_ok, r)))
              ⊎ (NoRow res × (res_handle r res ≡ (not_found, r)))))
unfolding Stopped
search_cases r res = elim (Bool-cases res.success) [
  | inr f ↦ inl f
  | inl s ↦ elim (Bool-cases (ltb 1 res.n_tuples)) [
    | inl several_rows ↦ inr (inl (s, several_rows))
    | inr few ↦ elim (res_handle_cases r res) [
      | inl one ↦ inr (inr (inl one))
      | inr (inl no_row) ↦ inr (inr (inr no_row))
      | inr (inr st) ↦ elim (Bool-cases (res.n_tuples == 1)) [
        | inl y ↦ absurd (st.2 (s, ground (arith, y)))
        | inr n ↦ absurd (st.3 (s, ground (arith, n, few)))
      ]
    ]
  ]
]
