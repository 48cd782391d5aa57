-- ===== src/Server/Request/Tables.antt =====
-- The database handler's tables, as the client sees them.
use pet_project.Base.{◌≡◌, refl, false, ◌++◌, some, arith, ap}
use pet_project.Base.Text.{Text, lit, is_empty, text_eq, text_eq_iff}
use pet_project.Handler.Request.{ReqInfo}
use pet_project.Handler.Http.State.{Backend, HttpHandler, exec}
use pet_project.Handler.Http.Files.{files_query, failure, dispatch}
use pet_project.Server.Request.{get, HttpRequest, string_body, HandleRequest, Opened, respond}

literal_tests :
    (is_empty (lit "files_table") ≡ false) × (text_eq (lit "files_table") (lit "/") ≡ false)
unfolding is_empty lit text_eq
literal_tests = (refl, refl)

-- A request for the table of files whose query fails: the handler puts the database's error into the
-- vector, and the client of a GET is answered with status 200 and the text that was there before,
-- which is none.
pub files_table_failure :
    {σ : Type 0} (b : Backend σ) (s : HttpHandler σ) (h : HandleRequest) (req : HttpRequest)
    (open_file : Text → Opened) (r : ReqInfo)
    → r.target ≡ lit "files_table"
    → (exec b files_query false s).0.success ≡ false
    → req.verb ≡ get
    → (s' : HttpHandler σ) × (r' : ReqInfo) × (dispatch b s r ≡ some (false, s', r'))
      × (r'.error
          ≡ r.error
            ++ failure (exec b files_query false s).0 (lit " error while forming files table: "))
      × ((respond h req open_file false r').status ≡ 200)
      × ((respond h req open_file false r').body ≡ string_body r.result)
unfolding dispatch respond
files_table_failure b s h req open_file r t failed g = (
  (exec b files_query false s).1,
  record r {
    error =
        r.error
        ++ failure (exec b files_query false s).0 (lit " error while forming files table: ");
  },
  ground (
    arith,
    t,
    failed,
    literal_tests,
    ap is_empty t,
    ap (λ x. text_eq x (lit "/")) t,
    (text_eq_iff r.target (lit "files_table")).1 t,
  ),
  refl,
  ground (arith, g),
  ground (arith, g),
)
