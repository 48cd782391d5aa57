-- ===== src/Server/Session.antt =====
-- Server_HTTP/src/server_http.cpp, class Session: session_loop, the coroutine that Asio resumes with
-- the end of the operation that it started. What the operations end in is an argument.
pub mod Exchange
use pet_project.Base.{
  ℕ, Bool, true, false, Option, none, some, List, [], ◌∷◌, ◌++◌, if◌then◌else◌, ◌>>=◌,
}
use pet_project.Base.Text.{Text, lit}
use pet_project.Base.Decimal.{to_string}
use pet_project.Handler.Request.{ReqInfo}
use pet_project.Server.Request as Request
use pet_project.Server.Request.{HttpRequest, HttpResponse, Opened, construct}

-- An error code that is set, as far as the code tells its values apart.
pub data Fault : Type 0 where
  end_of_stream timeout : Fault
  other_fault : Text → Fault

-- What the session waits for: a request, or the end of writing a response.
pub data Stage : Type 0 where
  reading writing closed : Stage

-- `response_written` says whether the response means that the connection is to be closed.
pub data Completion : Type 0 where
  request_read : HttpRequest → Completion
  read_failed : Fault → Completion
  response_written : Bool → Completion
  write_failed : Fault → Completion

-- The server's name, its handler, the opening of a file, ec.message(), and what shutdown() gives.
pub record Surroundings (S : Type 0) : Type 0 where
  pub server_name : Text
  pub run : S → ReqInfo → Option (Bool × S × ReqInfo)
  pub open_file : Text → Opened
  pub message : Fault → Text
  pub shutdown : Option Fault

-- `received` lists the requests that were read, and `sent` the responses. There is a logger: without
-- one the code calls a null pointer.
pub record Session (S : Type 0) : Type 0 where
  pub stage : Stage
  pub remote_address : Text
  pub remote_port : ℕ
  pub handler : S
  pub received : List HttpRequest
  pub sent : List HttpResponse
  pub reports : List Text
  pub log : List Text

-- ec == b_b::error::timeout
abbrev pub is_timeout : Option Fault → Bool
is_timeout (some timeout) = true
is_timeout _ = false

module _ {S : Type 0} where
  -- ", port: " and what the messages have around it
  abbrev pub of_host : Text → Text → Session S → Text
  of_host before behind s =
      before ++ (s.remote_address ++ (lit ", port: " ++ (to_string s.remote_port ++ behind)))

  -- if_fail->fail_report(ec, reason): to the log and to std::cerr
  unfoldable pub fail_report : Surroundings S → Fault → Text → Session S → Session S
  fail_report e ec reason s = record s {
    log = s.log ++ (reason ++ e.message ec) ∷ [];
    reports = s.reports ++ (reason ++ e.message ec) ∷ [];
  }

  -- What stands behind the loop.
  unfoldable pub finish : Surroundings S → Option Fault → Session S → Session S
  unfolding fail_report
  finish e ec s =
      let logged : Session S = record s {
        stage = closed;
        log = s.log ++ of_host (lit "Closing connection with IP-address: ") (lit " : ") s ∷ [];
      } in
      let timed_out : Session S = record s {
        stage = closed;
        log =
            s.log
            ++ of_host (lit "Connection with IP-address: ") (lit " closed due to timeout") s ∷ [];
      } in
      let shut : Session S = elim e.shutdown [
        | none ↦ logged
        | some f ↦
            fail_report e f
              (of_host (lit "Error while closing connection with IP-address: ") (lit " : ") s)
              logged
      ] in
      if is_timeout ec then timed_out else shut

  unfoldable pub read_reason : Fault → Session S → Text
  read_reason end_of_stream s =
      of_host (lit "The remote host with IP-address: ") (lit " closed the connection: ") s
  read_reason f s =
      of_host (lit "Error while reading message from remote host with IP-address: ") (lit " : ") s

  abbrev pub write_reason : Session S → Text
  write_reason s =
      of_host (lit "Error while writing response to remote host with IP-address: ") (lit " : ") s

  -- The request is handled, and the writing of the response begins.
  unfoldable pub answer : Surroundings S → HttpRequest → Session S → Option (Session S)
  answer e req s = do
    x ←
        Request.handle (construct e.server_name s.remote_address s.remote_port) req e.run
          e.open_file s.handler
    some (record s {
      stage = writing;
      handler = x.2;
      received = s.received ++ req ∷ [];
      sent = s.sent ++ x.0 ∷ [];
      log = s.log ++ x.1;
      reports = s.reports ++ x.1;
    })

  -- One resumption. An operation that was not started does not end: then the session stays as it is.
  unfoldable pub resume : Surroundings S → Stage → Completion → Session S → Option (Session S)
  unfolding finish read_reason answer fail_report
  resume e reading (request_read req) s = answer e req s
  resume e reading (read_failed f) s =
      some (finish e (some f) (fail_report e f (read_reason f s) s))
  resume e writing (response_written close) s =
      some (if close then finish e none s else record s { stage = reading })
  resume e writing (write_failed f) s =
      some (finish e (some f) (fail_report e f (write_reason s) s))
  resume e _ _ s = some s

  unfoldable pub session_loop : Surroundings S → List Completion → Session S → Option (Session S)
  unfolding resume
  session_loop e [] s = some s
  session_loop e (c ∷ cs) s = do t ← resume e s.stage c s; session_loop e cs t
