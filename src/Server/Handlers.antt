-- ===== src/Server/Handlers.antt =====
-- The session of a server whose handler is Server_HTTP_handler of Handler/src/handler.cpp.
use pet_project.Base.{ℕ, ◌≡◌, ◌≢◌, refl, Option, none, some, List, [], All, sym, ◌∙◌}
use pet_project.Base.Text.{Text}
use pet_project.Handler.Request.{ReqInfo}
use mathlib.Core.Option.{none-ne-some}
use pet_project.Handler.Http.State.{Backend, HttpHandler}
use pet_project.Handler.Http.Files as Http
use pet_project.Handler.Http.Files.Total.{IsPlain, Answers, CanTrim, handle_total}
use pet_project.Server.Request.{Opened, construct}
use pet_project.Server.Session.{reading, Completion, Fault, Surroundings, Session, session_loop}
use pet_project.Server.Session.Exchange.{HasTarget, Exchange, nothing, session_loop-IsInStep}

module _ {σ : Type 0} (b : Backend σ) (server_name : Text) (open_file : Text → Opened)
    (message : Fault → Text) (shutdown : Option Fault) where
  -- What a session of a server with this database has.
  abbrev pub surroundings : Surroundings (HttpHandler σ)
  surroundings = record {
    server_name = server_name;
    run = Http.handle b;
    open_file = open_file;
    message = message;
    shutdown = shutdown;
  }

  handler_never_fails :
      Answers b
      → ((h : HttpHandler σ) → CanTrim b h)
      → (h : HttpHandler σ) (r : ReqInfo) → IsPlain r.target
      → Http.handle b h r ≢ none
  handler_never_fails answers can h r plain e =
      let (file, h', r', q) = handle_total b answers h r plain (can h) in
      none-ne-some (file, h', r') (sym e ∙ q)

  -- The session after its connection has been accepted.
  abbrev pub connected : Text → ℕ → HttpHandler σ → Session (HttpHandler σ)
  connected address port first = record {
    stage = reading;
    remote_address = address;
    remote_port = port;
    handler = first;
    received = [];
    sent = [];
    reports = [];
    log = [];
  }

  -- The session has come to a state in which its responses answer its requests.
  abbrev pub IsServed : Text → ℕ → HttpHandler σ → List Completion → Type 0
  IsServed address port first cs =
      (t : Session (HttpHandler σ)) × (session_loop surroundings cs (connected address port first)
        ≡ some t)
      × Exchange surroundings (construct server_name address port) first t.received t.sent t.handler

-- A session of a server that has a logger, with a database that gives what PostgreSQL does: however the
-- operations of the session end, if each request that is read has a target of a first byte and a rest
-- without an apostrophe, and no trimming of the log table fails, there is no undefined behaviour, and
-- the responses are those that Handle_request gives for the requests, one for each and in their order,
-- each in the state of the handler that the ones before it have left.
pub database_session-IsServed :
    {σ : Type 0} (b : Backend σ) (server_name : Text) (open_file : Text → Opened)
    (message : Fault → Text) (shutdown : Option Fault) (address : Text) (port : ℕ)
    (first : HttpHandler σ) (cs : List Completion)
    → Answers b
    → ((h : HttpHandler σ) → CanTrim b h)
    → All (HasTarget IsPlain) cs
    → IsServed b server_name open_file message shutdown address port first cs
database_session-IsServed b server_name open_file message shutdown address port first cs answers can
      targets =
    let e = surroundings b server_name open_file message shutdown in
    let (t, q, (_, _, x)) =
      session_loop-IsInStep e IsPlain address port first
        (handler_never_fails b server_name open_file message shutdown answers can) cs
        (connected b server_name open_file message shutdown address port first) targets
        (refl, refl, nothing) in
    (t, q, x)
