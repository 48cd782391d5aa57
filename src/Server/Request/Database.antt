-- ===== src/Server/Request/Database.antt =====
-- The status of the answer of the server that works with the database.
use mathlib.Core.Option.{some-injective}
use pet_project.Base.{ℕ, ◌≡◌, ◌≢◌, refl, inl, inr, true, false, some, [], ◌++◌, arith, ap, sym, ◌∙◌}
use pet_project.Base.Text.{Text, lit}
use pet_project.Database.Result.{PgResult}
use pet_project.Handler.Request.{ReqInfo}
use pet_project.Handler.Http.Files.{
  Handled, result_is_ok, not_found, several_match, restore_star, res_handle, stops, choose, decide,
}
use pet_project.Handler.Http.Files.Served.{OneRow, TwoColumns, served, take_file_lem, slash_ne_nil}
use pet_project.Server.Request.{
  other, HttpRequest, HandleRequest, Opened, opened, error_status, respond,
}
use pet_project.Server.Request.Status.{error_answer, file_answer}
use pet_project.Server.Request.Searched.{
  IsClean, status_for, several_status, not_found_status, failed_search, several_search,
  decide_name_stops, decide_uid_stops, decide_chosen, search_cases,
}

-- Every file can be opened.
abbrev pub OpensAll : (Text → Opened) → Type 0
OpensAll open_file = (path : Text) → (size : ℕ) × (open_file path ≡ opened size)

module _ (h : HandleRequest) (req : HttpRequest) (open_file : Text → Opened) (name uid : PgResult)
    (r r' : ReqInfo) (empty : r.result ≡ []) where
  error_response_status :
      (q : ReqInfo) (n : ℕ)
      → decide name uid r ≡ some r'
      → decide name uid r ≡ some q
      → q.result ≡ []
      → error_status q.error ≡ n
      → (respond h req open_file true r').status ≡ n
  error_response_status q n e d u s =
      let same : r' ≡ q = some-injective _ _ (sym e ∙ d) in
      error_answer h req open_file r' n (ap (λ (x : ReqInfo). x.result) same ∙ u)
        (ap (λ (x : ReqInfo). error_status x.error) same ∙ s)

  file_response_status :
      (res : PgResult)
      → req.verb ≢ other
      → OpensAll open_file
      → decide name uid r ≡ some r'
      → decide name uid r ≡ some (served res r)
      → (respond h req open_file true r').status ≡ 200
  file_response_status res v opens e d =
      let same : r' ≡ served res r = some-injective _ _ (sym e ∙ d) in
      let (size, o) = opens r'.result in
      (file_answer h req open_file r' size v
        (λ z. slash_ne_nil _ _ (ap (λ (x : ReqInfo). x.result) (sym same) ∙ z)) o).0

  -- The first search stops the request.
  name_stops :
      (n : ℕ)
      → decide name uid r ≡ some r'
      → stops (res_handle r name).0 ≡ true
      → (res_handle r name).1.result ≡ r.result
      → error_status (res_handle r name).1.error ≡ n
      → (respond h req open_file true r').status ≡ n
  name_stops n e s u status =
      error_response_status (res_handle r name).1 n e (decide_name_stops name uid r s) (u ∙ empty)
        status

  -- The first search found a row or none, and the second stops the request.
  uid_stops :
      (x : Handled) (n : ℕ)
      → decide name uid r ≡ some r'
      → res_handle r name ≡ (x, r)
      → stops x ≡ false
      → stops (res_handle r uid).0 ≡ true
      → (res_handle r uid).1.result ≡ r.result
      → error_status (res_handle r uid).1.error ≡ n
      → (respond h req open_file true r').status ≡ n
  uid_stops x n e p k s u status =
      error_response_status (res_handle r uid).1 n e (decide_uid_stops name uid r x p k s)
        (u ∙ empty) status

  -- Neither stops it.
  both_match :
      decide name uid r ≡ some r'
      → res_handle r name ≡ (result_is_ok, r)
      → res_handle r uid ≡ (result_is_ok, r)
      → (respond h req open_file true r').status ≡ 300
  unfolding choose several_match
  both_match e p q =
      error_response_status (several_match r) 300 e
        (decide_chosen name uid r result_is_ok result_is_ok p q refl refl) empty
        (several_status (restore_star r.target))

  neither_matches :
      decide name uid r ≡ some r'
      → res_handle r name ≡ (not_found, r)
      → res_handle r uid ≡ (not_found, r)
      → (respond h req open_file true r').status ≡ 404
  unfolding choose
  neither_matches e p q =
      error_response_status (record r { error = lit "File " ++ (r.target ++ lit " not found") }) 404
        e (decide_chosen name uid r not_found not_found p q refl refl) empty
        (not_found_status (r.target ++ lit " not found"))

  name_matches :
      decide name uid r ≡ some r'
      → req.verb ≢ other
      → OpensAll open_file
      → TwoColumns name
      → OneRow name
      → res_handle r name ≡ (result_is_ok, r)
      → res_handle r uid ≡ (not_found, r)
      → (respond h req open_file true r').status ≡ 200
  unfolding choose
  name_matches e v opens two one p q = file_response_status name v opens e (
      decide_chosen name uid r result_is_ok not_found p q refl refl
      ∙ take_file_lem r name one.1 (two one.1))

  uid_matches :
      decide name uid r ≡ some r'
      → req.verb ≢ other
      → OpensAll open_file
      → TwoColumns uid
      → OneRow uid
      → res_handle r name ≡ (not_found, r)
      → res_handle r uid ≡ (result_is_ok, r)
      → (respond h req open_file true r').status ≡ 200
  unfolding choose
  uid_matches e v opens two one p q = file_response_status uid v opens e (
      decide_chosen name uid r not_found result_is_ok p q refl refl
      ∙ take_file_lem r uid one.1 (two one.1))

-- With the database, a request for a file by GET or HEAD, when the results of the two searches are
-- `name` and `uid` and the file that they give can be opened, is answered with 500 if a search failed,
-- 300 if one of them, or both together, found several rows, 404 if they found none, and 200 if they
-- found one. The first search comes before the second; an error of the log table does not matter.
pub decide-status_for :
    (h : HandleRequest) (req : HttpRequest) (open_file : Text → Opened) (name uid : PgResult)
    (r r' : ReqInfo)
    → req.verb ≢ other
    → OpensAll open_file
    → TwoColumns name
    → TwoColumns uid
    → r.result ≡ []
    → IsClean r.error
    → decide name uid r ≡ some r'
    → (respond h req open_file true r').status ≡ status_for name uid
decide-status_for h req open_file name uid r r' v opens two_name two_uid empty clean e =
    elim (search_cases r name) [
      | inl f ↦
          let (s, u, status) = failed_search r name clean f in
          name_stops h req open_file name uid r r' empty 500 e (ap stops s) u status
          ∙ ground (arith, f)
      | inr (inl (y, m)) ↦
          let (s, u, status) = several_search r name y m in
          name_stops h req open_file name uid r r' empty 300 e (ap stops s) u status
          ∙ ground (arith, y, m)
      | inr (inr (inl (one, p))) ↦ elim (search_cases r uid) [
        | inl f ↦
            let (s, u, status) = failed_search r uid clean f in
            uid_stops h req open_file name uid r r' empty result_is_ok 500 e p refl (ap stops s) u
              status
            ∙ ground (arith, f, one)
        | inr (inl (y, m)) ↦
            let (s, u, status) = several_search r uid y m in
            uid_stops h req open_file name uid r r' empty result_is_ok 300 e p refl (ap stops s) u
              status
            ∙ ground (arith, y, m, one)
        | inr (inr (inl (one', q))) ↦
            both_match h req open_file name uid r r' empty e p q ∙ ground (arith, one, one')
        | inr (inr (inr (no_row, q))) ↦
            name_matches h req open_file name uid r r' empty e v opens two_name one p q
            ∙ ground (arith, one, no_row)
      ]
      | inr (inr (inr (no_row, p))) ↦ elim (search_cases r uid) [
        | inl f ↦
            let (s, u, status) = failed_search r uid clean f in
            uid_stops h req open_file name uid r r' empty not_found 500 e p refl (ap stops s) u
              status
            ∙ ground (arith, f, no_row)
        | inr (inl (y, m)) ↦
            let (s, u, status) = several_search r uid y m in
            uid_stops h req open_file name uid r r' empty not_found 300 e p refl (ap stops s) u
              status
            ∙ ground (arith, y, m, no_row)
        | inr (inr (inl (one, q))) ↦
            uid_matches h req open_file name uid r r' empty e v opens two_uid one p q
            ∙ ground (arith, one, no_row)
        | inr (inr (inr (no_row', q))) ↦
            neither_matches h req open_file name uid r r' empty e p q
            ∙ ground (arith, no_row, no_row')
      ]
    ]
