-- ===== src/Server/Main.antt =====
-- Server_HTTP/src/main.cpp: the program of the server with the database, from the search for the ini
-- file to the accepting loop. What the system answers is an argument.
pub mod Configured
pub mod Required
use pet_project.Base.{
  ℕ, Bool, true, false, Option, none, some, List, [], ◌∷◌, ◌++◌, ◌>>=◌, ltb, ◌&&◌, if◌then◌else◌,
}
use pet_project.Base.Text.{Text, lit}
use pet_project.Base.Decimal.{atoi}
use pet_project.Parser.Massives.{Parser, string_at}
use pet_project.Parser.Classes.{
  Ptree, parser_db, parser_server_http, construct_from_file, parsed_info_ptr,
}
use pet_project.Parser.Search as Search
use pet_project.Parser.Search.{Directory, Outcome, returned, thrown}
use pet_project.Database.Startup as Database
use pet_project.Database.Startup.{DbModule, by_parser}
use pet_project.Handler.Http.State.{Backend, HttpHandler}
use pet_project.Handler.Http.Log as Http
use pet_project.Server.Startup.{
  Helpers, helpers, Server, construct, Endpoint, Remote, Accepted, Output, run,
}

-- The directories, read_ini with `none` for its exception, hardware_concurrency(), what libpq answers
-- to each attempt to connect, which threads start, whether the logger starts with its name, its folder
-- and its limit, the error codes of the acceptor for an address and a port, how many connections
-- pull_connection drops because they have failed and cannot be reset, what the database answers when a
-- connection is there, and the ends of async_accept.
pub record System (σ : Type 0) : Type 0 where
  pub files : Search.FileSystem
  pub read_ini : Text → Option Ptree
  pub hardware : ℕ
  pub connect : ℕ → ℕ → ℕ × Bool
  pub starts : ℕ → Bool
  pub logger_starts : Text → Text → Text → Bool
  pub endpoint : Text → Text → Endpoint
  pub lost : ℕ
  pub backend : Backend σ
  pub database : σ
  pub ends : List Accepted

-- `what` is what() of the exception that has been caught, and `parsed` what the parsers wrote to
-- std::cerr.
pub record Running (σ : Type 0) : Type 0 where
  pub what : Text
  pub parsed : Text
  pub module_db : DbModule
  pub server : Server
  pub handler : HttpHandler σ
  pub sessions : List Remote
  pub output : Output

-- The end of a call that waits for the database: it may wait for ever.
pub data Await (A : Type 0) : Type 0 where
  blocked : Await A
  reached : A → Await A

abbrev pub config_name : Text
config_name = lit "pet_project_config.ini"

-- path_to_config.return_path(), of the object that `try` has left, and what the exception says.
abbrev pub return_path : Outcome → Text × Text
return_path (returned s) = (s.path, [])
return_path (thrown message) = ([], message)

-- parser->parsed_info_ptr()[i]
unfoldable pub info_at : Parser → ℕ → Option Text
unfolding parsed_info_ptr string_at
info_at p i = string_at (parsed_info_ptr parser_server_http b'k' p) i

module _ {σ : Type 0} (e : System σ) where
  -- Server_HTTP(srvr_hlpr_clss), with what it reads from the parser: the number of threads, and the
  -- name, the folder and the limit of the logger.
  unfoldable pub server_of : Parser → Option Server
  unfolding info_at construct helpers
  server_of p = do
    threads ← info_at p 6
    name ← info_at p 2
    logs_folder ← info_at p 4
    max_size ← info_at p 5
    some (
        construct e.hardware threads (e.logger_starts name logs_folder max_size)
          (helpers name [] false false false true false))

  -- Whether a command of this DB_module is ever finished: it takes a thread, and a connection that is
  -- not dropped.
  abbrev pub is_answered : DbModule → Bool
  is_answered m = ltb e.lost m.conns_established && ltb 0 m.threads_started

  -- Server_HTTP_handler(module_DB, logger, days_limit, rows_limit), which waits for the results of its
  -- commands.
  unfoldable pub handler_of : DbModule → Parser → Server → Option (Await (HttpHandler σ))
  unfolding info_at Http.construct
  handler_of m p s = do
    days ← info_at p 7
    rows ← info_at p 8
    let made = (do
      h ← Http.construct e.backend s.helpers.logger (atoi days) (atoi rows) e.database
      some (reached h))
    if is_answered m then made else some blocked

  -- server_http.run()
  unfoldable pub run_of : Parser → Server → Option (List Remote × Output)
  unfolding info_at run
  run_of p s = do
    address ← info_at p 0
    port ← info_at p 1
    run (record (e.endpoint address port) { address = address; port = port }) e.ends s

  -- server_http.run(), with everything that main has made.
  unfoldable pub listen :
      Text → Text → Parser → DbModule → Server → HttpHandler σ → Option (Running σ)
  unfolding run_of
  listen what parsed http m server h = do
    (sessions, output) ← run_of http server
    some (record {
      what = what;
      parsed = parsed;
      module_db = m;
      server = server;
      handler = h;
      sessions = sessions;
      output = output;
    })

  -- From the path of the ini file on; `none` is an exception that nothing catches, or undefined
  -- behaviour.
  unfoldable pub start : Text → Text → Option (Await (Running σ))
  unfolding construct_from_file Database.construct server_of handler_of listen
  start path what = do
    (http, http_said) ← construct_from_file parser_server_http e.read_ini path
    (db, db_said) ← construct_from_file parser_db e.read_ini path
    m ← Database.construct e.hardware (by_parser db) e.connect e.starts
    server ← server_of http
    waiting ← handler_of m http server
    elim waiting [
      | blocked ↦ some blocked
      | reached h ↦ (do r ← listen what (http_said ++ db_said) http m server h; some (reached r))
    ]

  -- main, in this working directory
  unfoldable pub main : Directory → Option (Await (Running σ))
  unfolding Search.construct start
  main dir = do
    found ← Search.construct e.files config_name dir
    start (return_path found).0 (return_path found).1
