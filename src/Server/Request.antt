-- ===== src/Server/Request.antt =====
-- Server_HTTP/include/server_http.h: the class Handle_request. The handler is the virtual `handle`
-- of a Handler with its state; `open_file` is what opening a file gives, an error message or the
-- size of the file. `none` is undefined behaviour.
pub mod Head
pub mod Status
pub mod Directory
pub mod Searched
pub mod Database
pub mod Tables
use pet_project.Base.{
  ℕ, Bool, true, false, ◌&&◌, ◌||◌, not, Option, none, some, List, [], ◌∷◌, ◌++◌, length,
  if◌then◌else◌, ◌>>=◌,
}
use pet_project.Base.Text.{Text, lit, starts_with, is_empty}
use pet_project.Base.Decimal.{to_string}
use pet_project.Handler.Request.{ReqInfo}
use pet_project.Server.Mime.{mime_type}

-- b_b_http::verb, as far as the code tells its values apart.
pub data Verb : Type 0 where
  get head other : Verb

pub record HttpRequest : Type 0 where
  pub verb : Verb
  pub method_string : Text
  pub target : Text
  pub version : ℕ
  pub host : Text
  pub user_agent : Text
  pub keep_alive : Bool

pub data Body : Type 0 where
  empty_body : Body
  string_body : Text → Body
  file_body : Text → Body

pub record HttpResponse : Type 0 where
  pub status : ℕ
  pub version : ℕ
  pub server : Text
  pub content_type : Text
  pub content_disposition : Option Text
  pub content_length : ℕ
  pub keep_alive : Bool
  pub body : Body

pub data Opened : Type 0 where
  open_error : Text → Opened
  opened : ℕ → Opened

-- The remote end, the server's name, and the vector.
pub record HandleRequest : Type 0 where
  pub server_name : Text
  pub remote_address : Text
  pub remote_port : ℕ
  pub req_info : ReqInfo

-- The constructor.
pub construct : Text → Text → ℕ → HandleRequest
construct server address port = record {
  server_name = server;
  remote_address = address;
  remote_port = port;
  req_info = record {
    target = [];
    host = [];
    port = to_string port;
    ip_address = address;
    user_agent = [];
    method = [];
    result = [];
    error = [];
  };
}

-- target.remove_prefix(1), undefined on an empty target
unfoldable pub remove_prefix : Text → Option Text
remove_prefix [] = none
remove_prefix (c ∷ t) = some t

unfoldable pub handler_vector_fill : HttpRequest → ReqInfo → Option ReqInfo
unfolding remove_prefix
handler_vector_fill req r = do
  target ← remove_prefix req.target
  some (record {
    target = target;
    host = req.host;
    port = r.port;
    ip_address = r.ip_address;
    user_agent = req.user_agent;
    method = req.method_string;
    result = [];
    error = [];
  })

-- The status that the error message stands for.
unfoldable pub error_status : Text → ℕ
error_status error =
    if starts_with error (lit "Illegal request")
    then 400
    else if starts_with error (lit "Several")
    then 300
    else if starts_with error (lit "Database")
    then 500
    else 404

module _ (h : HandleRequest) (req : HttpRequest) where
  unfoldable pub string_body_res : ℕ → Text → HttpResponse
  string_body_res status content = record {
    status = status;
    version = req.version;
    server = h.server_name;
    content_type = lit "text/plain";
    content_disposition = none;
    content_length = length content;
    keep_alive = req.keep_alive;
    body = string_body content;
  }

  unfoldable pub unknown_method : HttpResponse
  unfolding string_body_res
  unknown_method = string_body_res 400 (lit "Unknown HTTP method")

  -- A text response, without its body for HEAD.
  unfoldable pub table_response : Text → HttpResponse
  unfolding string_body_res unknown_method
  table_response content = elim req.verb [
    | head ↦ record (string_body_res 200 content) { body = empty_body }
    | get ↦ string_body_res 200 content
    | other ↦ unknown_method
  ]

  unfoldable pub error_response : Text → HttpResponse
  unfolding string_body_res error_status
  error_response error = string_body_res (error_status error) (error ++ b'\n' ∷ [])

  unfoldable pub file_response : ReqInfo → ℕ → HttpResponse
  unfolding string_body_res unknown_method
  file_response r size =
      let filled : HttpResponse = record {
        status = 200;
        version = req.version;
        server = h.server_name;
        content_type = mime_type r.target;
        content_disposition = some (lit "attachment; filename=\"" ++ (r.target ++ b'"' ∷ []));
        content_length = size;
        keep_alive = req.keep_alive;
        body = empty_body;
      } in
      elim req.verb [
        | head ↦ filled
        | get ↦ record filled { body = file_body r.result }
        | other ↦ unknown_method
      ]

  -- The response after the handler has run; `file` is what it returned.
  unfoldable pub respond : (Text → Opened) → Bool → ReqInfo → HttpResponse
  unfolding table_response error_response file_response
  respond open_file file r =
      if not file
      then table_response r.result
      else if is_empty r.result
      then error_response r.error
      else elim (open_file r.result) [
        | open_error message ↦ string_body_res 500 message
        | opened size ↦ file_response r size
      ]

  -- What is reported to If_fail: the error of a request for a file that is not served.
  unfoldable pub reports : Bool → ReqInfo → List Text
  reports file r =
      if file && is_empty r.result
      then (r.error
          ++ (lit " (request from ip-address: "
              ++ (h.remote_address ++ (lit ", port: " ++ (to_string h.remote_port ++ lit ")")))))
        ∷ []
      else []

  -- handle(): the response that is sent, the reports and the handler's state.
  unfoldable pub handle {ℓ} :
      {S : Type ℓ}
      → (S → ReqInfo → Option (Bool × S × ReqInfo))
      → (Text → Opened)
      → S
      → Option (HttpResponse × List Text × S)
  unfolding unknown_method handler_vector_fill respond reports
  handle run open_file s =
      let handled = (do
        filled ← handler_vector_fill req h.req_info
        x ← run s filled
        some (respond open_file x.0 x.2, reports x.0 x.2, x.1)) in
      elim req.verb [ get ↦ handled | head ↦ handled | other ↦ some (unknown_method, [], s) ]
