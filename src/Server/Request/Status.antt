-- ===== src/Server/Request/Status.antt =====
-- The answer of the server that works with a directory.
use pet_project.Base.{
  ℕ, ◌≡◌, ◌≢◌, ◌⊎◌, refl, true, List, [], ◌∷◌, ◌++◌, some, arith, Bool-cases, inl, inr, ap, sym,
  false, ◌∙◌, Option-cases, ◌==◌, subst,
}
use pet_project.Base.Text.{Text, starts_with, lit, is_empty, back?, back?_total}
use pet_project.Handler.Request.{ReqInfo}
use pet_project.Handler.Dir.{Entry, path_append, illegal}
use pet_project.Handler.Dir.Find.{Loop, Outcome}
use pet_project.Handler.Dir.Requested.{IsIllegal, Requested}
use pet_project.Server.Request.{
  other, HttpRequest, HttpResponse, HandleRequest, Opened, opened, open_error, string_body,
  string_body_res, error_status, respond,
}

illegal_status : error_status illegal ≡ 400
unfolding error_status starts_with lit
illegal_status = refl

file_status : (t : Text) → error_status (lit "File " ++ t) ≡ 404
unfolding error_status starts_with lit
file_status t = refl

pub error_answer :
    (h : HandleRequest) (req : HttpRequest) (open_file : Text → Opened) (r : ReqInfo) (n : ℕ)
    → r.result ≡ []
    → error_status r.error ≡ n
    → (respond h req open_file true r).status ≡ n
unfolding respond is_empty
error_answer h req open_file r n e s = ground (arith, e, s)

append_nil_left : (s t : Text) → s ++ t ≡ [] → s ≡ []
append_nil_left [] t e = refl
append_nil_left (a ∷ s) t e = cc

not_empty : (t : Text) → t ≢ [] → is_empty t ≡ false
unfolding is_empty
not_empty [] ne = absurd (ne refl)
not_empty (a ∷ t) ne = refl

abbrev pub attachment : Text → Text
attachment name = lit "attachment; filename=\"" ++ (name ++ b'"' ∷ [])

pub file_answer :
    (h : HandleRequest) (req : HttpRequest) (open_file : Text → Opened) (r : ReqInfo) (size : ℕ)
    → req.verb ≢ other
    → r.result ≢ []
    → open_file r.result ≡ opened size
    → ((respond h req open_file true r).status ≡ 200)
      × ((respond h req open_file true r).content_disposition ≡ some (attachment r.target))
unfolding respond is_empty
file_answer h req open_file r size v ne e =
    (ground (arith, not_empty r.result ne, e, v), ground (arith, not_empty r.result ne, e, v))

-- The response to a request for the file `n`, for what opening it gives.
abbrev pub Sent : Opened → Text → HttpResponse → Type 0
Sent (opened size) n res =
    (res.status ≡ 200)
    × (res.content_disposition ≡ some (attachment n))
    × (res.content_length ≡ size)
Sent (open_error message) n res = (res.status ≡ 500) × (res.body ≡ string_body message)

path_ne_nil : (path name : Text) → path ≢ [] → path_append path name ≢ []
unfolding path_append
path_ne_nil path name ne e = elim (Option-cases (back? path)) [
  | inl none_there ↦ let (c, q) = back?_total path ne in ground (arith, none_there, q)
  | inr (c, q) ↦ elim (Bool-cases (c == b'/')) [
    | inl slash ↦ ne (append_nil_left path name (ground (arith, q, slash)))
    | inr plain ↦ ne (append_nil_left path (b'/' ∷ name) (ground (arith, q, plain)))
  ]
]

file_length :
    (h : HandleRequest) (req : HttpRequest) (open_file : Text → Opened) (r : ReqInfo) (size : ℕ)
    → req.verb ≢ other
    → r.result ≢ []
    → open_file r.result ≡ opened size
    → (respond h req open_file true r).content_length ≡ size
unfolding respond is_empty
file_length h req open_file r size v ne e = ground (arith, not_empty r.result ne, e, v)

unopened :
    (h : HandleRequest) (req : HttpRequest) (open_file : Text → Opened) (r : ReqInfo)
    (message : Text)
    → r.result ≢ []
    → open_file r.result ≡ open_error message
    → respond h req open_file true r ≡ string_body_res h req 500 message
unfolding respond is_empty
unopened h req open_file r message ne e = ground (arith, not_empty r.result ne, e)

string_body_lem :
    (h : HandleRequest) (req : HttpRequest) (message : Text)
    → ((string_body_res h req 500 message).status ≡ 500)
      × ((string_body_res h req 500 message).body ≡ string_body message)
unfolding string_body_res
string_body_lem h req message = (refl, refl)

opened_cases :
    (o : Opened) → ((size : ℕ) × (o ≡ opened size)) ⊎ ((message : Text) × (o ≡ open_error message))
opened_cases (opened size) = inl (size, refl)
opened_cases (open_error message) = inr (message, refl)

-- The vector that names the file `n` of the directory is answered with that file.
pub respond-Sent :
    (h : HandleRequest) (req : HttpRequest) (open_file : Text → Opened) (path n : Text)
    (r : ReqInfo)
    → req.verb ≢ other
    → path ≢ []
    → r.target ≡ n
    → r.result ≡ path_append path n
    → Sent (open_file (path_append path n)) n (respond h req open_file true r)
respond-Sent h req open_file path n r v ne t p =
    let there : r.result ≢ [] = λ z. path_ne_nil path n ne (sym p ∙ z) in
    elim (opened_cases (open_file (path_append path n))) [
      | inl (size, o) ↦
          let (status, field) = file_answer h req open_file r size v there (ap open_file p ∙ o) in
          subst (λ x. Sent x n (respond h req open_file true r)) (sym o)
            (
              status,
              field ∙ ap (λ x. some (attachment x)) t,
              file_length h req open_file r size v there (ap open_file p ∙ o),
            )
      | inr (message, o) ↦
          let same = unopened h req open_file r message there (ap open_file p ∙ o) in
          let (status, body) = string_body_lem h req message in
          subst (λ x. Sent x n (respond h req open_file true r)) (sym o)
            (
              ap (λ (x : HttpResponse). x.status) same ∙ status,
              ap (λ (x : HttpResponse). x.body) same ∙ body,
            )
    ]

-- The answer, for what the vector has become.
abbrev pub Answered : Text → List Entry → Text → (Text → Opened) → HttpResponse → Type 0
Answered path es target open_file res =
    (IsIllegal target × (res.status ≡ 400))
    ⊎ ((¬ IsIllegal target)
        × Loop (Requested target) (λ n. Sent (open_file (path_append path n)) n res) es
            (res.status ≡ 404))

pub illegal-Answered :
    (h : HandleRequest) (req : HttpRequest) (open_file : Text → Opened) (path : Text)
    (es : List Entry) (r : ReqInfo)
    → r.result ≡ []
    → IsIllegal r.target
    → Answered path es r.target open_file
        (respond h req open_file true (record r { error = illegal }))
illegal-Answered h req open_file path es r empty i =
    inl (i, error_answer h req open_file (record r { error = illegal }) 400 empty illegal_status)

pub found-Answered :
    (h : HandleRequest) (req : HttpRequest) (open_file : Text → Opened) (path : Text)
    (es : List Entry) (r r' : ReqInfo)
    → req.verb ≢ other
    → path ≢ []
    → r.result ≡ []
    → ¬ IsIllegal r.target
    → Outcome path es r (some r')
    → Answered path es r.target open_file (respond h req open_file true r')
found-Answered h req open_file path es r r' v ne empty i
      (inl (before, e, after, q, all, y, n, s, m, k)) =
    inr (
      i,
      inl (
        before,
        e,
        after,
        q,
        all,
        y,
        n,
        s,
        m,
        respond-Sent h req open_file path n r' v ne (ap (λ (x : ReqInfo). x.target) k)
            (ap (λ (x : ReqInfo). x.result) k),
      ),
    )
found-Answered h req open_file path es r r' v ne empty i (inr (all, (q, q'))) = inr (
  i,
  inr (
    all,
    error_answer h req open_file r' 404 (q ∙ empty)
        (ap error_status q' ∙ file_status (r'.target ++ lit " not found")),
  ),
)
