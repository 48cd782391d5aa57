-- ===== src/Client/Download.antt =====
-- The name that the client reads from a response of the server (Content-Disposition).
use pet_project.Base.{ℕ, ◌≡◌, ◌≢◌, refl, true, false, some, [], ◌∷◌, ◌++◌, All, arith, ◌∙◌}
use pet_project.Base.Text.{Text, lit, is_empty, starts_with}
use pet_project.Handler.Request.{ReqInfo}
use pet_project.Handler.Dir.{path_append}
use pet_project.Server.Request.{get, other, HttpRequest, HandleRequest, file_response}
use pet_project.Client.Session.{
  Surroundings, Round, Session, is_no_such_file, body_limit, file_path, set_params_file_body_parser,
}
use pet_project.Client.{index_of, name_begin, drop_bytes, until_quote, file_name}

abbrev pub NoQuote : Text → Type 0
NoQuote = All (λ c. c ≢ b'"')

until_quote-append : (t : Text) → NoQuote t → until_quote (t ++ b'"' ∷ []) ≡ some t
unfolding until_quote
until_quote-append [] h = refl
until_quote-append (c ∷ t) h = ground (arith, until_quote-append t h.1, h.0)

-- The field that names a file.
abbrev pub disposition : Text → Text
disposition t = lit "attachment; filename=\"" ++ (t ++ b'"' ∷ [])

file_name-disposition :
    (answer t : Text) → file_name answer (disposition t) ≡ until_quote (t ++ b'"' ∷ [])
unfolding lit file_name name_begin index_of drop_bytes is_empty
file_name-disposition answer t = refl

-- Whatever the request for a file by GET or HEAD is, the client takes the name that the server's
-- response gives the file, and it is the target of the vector, if that has no quotation mark.
file_name-file_response :
    (h : HandleRequest) (req : HttpRequest) (r : ReqInfo) (size : ℕ) (answer : Text)
    → req.verb ≢ other
    → NoQuote r.target
    → (field : Text) × ((file_response h req r size).content_disposition ≡ some field)
      × (file_name answer field ≡ some r.target)
unfolding file_response
file_name-file_response h req r size answer v q = (
  disposition r.target,
  ground (arith, v),
  file_name-disposition answer r.target ∙ until_quote-append r.target q,
)

-- If a response names a file by an absolute path without a quotation mark, and the download directory
-- exists, the client opens that path for the contents, outside of the directory: unless no such file or
-- directory is there.
pub set_params_file_body_parser_absolute :
    (e : Surroundings) (r : Round) (s : Session) (t : Text)
    → NoQuote (b'/' ∷ t)
    → r.header.content_disposition ≡ disposition (b'/' ∷ t)
    → r.exists ≡ true
    → is_no_such_file r.opened ≡ false
    → set_params_file_body_parser e r s
      ≡ some (true, record s { opened = s.opened ++ (b'/' ∷ t, body_limit r.header) ∷ [] })
unfolding set_params_file_body_parser file_path starts_with
set_params_file_body_parser_absolute e r s t q d x o =
    rw (d, file_name-disposition r.answered_name (b'/' ∷ t), until_quote-append (b'/' ∷ t) q, x, o)
      refl

-- What a client that got the server's response for a file by GET does with it: if the download
-- directory exists and the file can be opened, the body goes to the file of the same name in that
-- directory, with the size of the server's file as its limit. The name has no quotation mark and does
-- not begin with a slash.
pub set_params_file_body_parser-file_response :
    (h : HandleRequest) (req : HttpRequest) (served : ReqInfo) (size : ℕ) (e : Surroundings)
    (r : Round) (s : Session)
    → req.verb ≡ get
    → NoQuote served.target
    → starts_with served.target (b'/' ∷ []) ≡ false
    → some r.header.content_disposition ≡ (file_response h req served size).content_disposition
    → r.header.content_length ≡ some (file_response h req served size).content_length
    → r.exists ≡ true
    → is_no_such_file r.opened ≡ false
    → set_params_file_body_parser e r s
      ≡ some (
        true,
        record s {
          opened = s.opened ++ (path_append e.path_to_dwnld_dir served.target, size) ∷ [];
        },
      )
unfolding set_params_file_body_parser file_path file_response
set_params_file_body_parser-file_response h req served size e r s g q n d l x o =
    rw
      (
        d',
        l',
        file_name-disposition r.answered_name served.target,
        until_quote-append served.target q,
        x,
        o,
        n,
      )
      refl
  where
    d' : r.header.content_disposition ≡ disposition served.target
    d' = ground (arith, g, d)

    l' : r.header.content_length ≡ some size
    l' = ground (arith, g, l)
