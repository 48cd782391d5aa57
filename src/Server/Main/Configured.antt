-- ===== src/Server/Main/Configured.antt =====
-- Server_HTTP/src/main.cpp: what the server is, by the values of the ini file.
use pet_project.Base.{
  ℕ, ◌≡◌, refl, true, false, some, List, [], ◌∷◌, map, get_elem?, ◌+◌, ◌++◌, ◌<◌, Bool, length, ap,
  arith, ◌∙◌,
}
use pet_project.Base.Text.{Text}
use pet_project.Base.Decimal.{atoi}
use pet_project.Parser.CString.{until_nul}
use pet_project.Parser.Massives.{Parser, Section, constructing_massives}
use pet_project.Parser.Massives.Contents.{constructing_massives-Holds}
use pet_project.Parser.Classes.{
  Ptree, parser_db, parser_server_http, section_name, construct_from_file, parsed_info_ptr,
}
use pet_project.Parser.Classes as Classes
use pet_project.Parser.Classes.Startup.{string_at-values, construct-eq}
use pet_project.Parser.Search.{Directory, dir_text}
use pet_project.Parser.Search.Nearest.{up, IsThere}
use pet_project.Parser.Search.Near.{construct_near}
use pet_project.Handler.Dir.{path_append}
use pet_project.Database.Startup as Database
use pet_project.Database.Startup.Unreached.{
  made, construct-made, IsUnreachable, construct-IsUnreachable,
}
use pet_project.Database.Startup.{DbModule, by_parser, thread_pool}
use pet_project.Handler.Http.State.{HttpHandler}
use pet_project.Handler.Http.Log.Constructed.{Counts, limits-construct, construct_total}
use pet_project.Server.Startup.{num_threads, helpers, Server, construct, Endpoint, Output}
use pet_project.Server.Startup.Listening.{remotes, failures, unreached, run_with_logger}
use pet_project.Server.Main.{
  System, Running, blocked, reached, config_name, info_at, server_of, is_answered, handler_of,
  run_of, listen, start, main,
}

info_at_lem :
    (section : Section) (i : ℕ) (t : Text)
    → get_elem? (map (λ e. until_nul e.1) section) i ≡ some t
    → info_at (constructing_massives section) i ≡ some t
unfolding info_at
info_at_lem section i t g =
    string_at-values (constructing_massives section).values (map (λ e. until_nul e.1) section) i t
      (constructing_massives-Holds section).values_read g

pub module_total :
    (hardware : ℕ) (p : Parser) (connect : ℕ → ℕ → ℕ × Bool) (starts : ℕ → Bool)
    → (m : DbModule) × (Database.construct hardware (by_parser p) connect starts ≡ some m)
module_total hardware p connect starts = (
  made hardware (by_parser p) connect starts,
  construct-made hardware (by_parser p) connect starts,
)

module _ {σ : Type 0} (e : System σ) (section : Section)
    (address port name files logs size threads days rows : Text) (rest : List Text)
    (vals : map (λ x. until_nul x.1) section
      ≡ address ∷ port ∷ name ∷ files ∷ logs ∷ size ∷ threads ∷ days ∷ rows ∷ rest) where
  abbrev parser : Parser
  parser = constructing_massives section

  value_at :
      (i : ℕ) (t : Text)
      → get_elem? (address ∷ port ∷ name ∷ files ∷ logs ∷ size ∷ threads ∷ days ∷ rows ∷ rest) i
        ≡ some t
      → info_at parser i ≡ some t
  value_at i t g = info_at_lem section i t (rw vals g)

  -- The server of these values, whose logger has started.
  abbrev configured : Server
  configured = construct e.hardware threads true (helpers name [] false false false true false)

  server_of_lem : e.logger_starts name logs size ≡ true → server_of e parser ≡ some configured
  unfolding server_of
  server_of_lem l =
      rw
        (
          value_at 6 threads refl,
          value_at 2 name refl,
          value_at 4 logs refl,
          value_at 5 size refl,
          l,
        )
        refl

  handler_of_lem :
      (m : DbModule)
      → is_answered e m ≡ true
      → Counts e.backend
      → (h : HttpHandler σ) × (handler_of e m parser configured ≡ some (reached h))
        × (h.days_limit ≡ atoi days)
        × (h.rows_limit ≡ atoi rows)
  unfolding handler_of construct
  handler_of_lem m y c =
      let (h, x) = construct_total e.backend true (atoi days) (atoi rows) e.database c in
      let l = limits-construct e.backend true (atoi days) (atoi rows) e.database h x in
      (
        h,
        rw (value_at 7 days refl, value_at 8 rows refl, y, x) refl,
        ap (λ p. p.0) l,
        ap (λ p. p.1) l,
      )

  handler_of_blocked :
      (m : DbModule) → is_answered e m ≡ false → handler_of e m parser configured ≡ some blocked
  unfolding handler_of
  handler_of_blocked m y = rw (value_at 7 days refl, value_at 8 rows refl, y) refl

  abbrev endpoint : Endpoint
  endpoint = record (e.endpoint address port) { address = address; port = port }

  run_of_lem :
      (o : Output) × (run_of e parser configured ≡ some (remotes e.ends, o))
      × (length o.reports ≡ failures endpoint + unreached e.ends)
  unfolding run_of
  run_of_lem =
      let (o, x, n) =
        run_with_logger (helpers name [] false false false true false) e.hardware threads endpoint
          e.ends in
      (o, rw (value_at 0 address refl, value_at 1 port refl, x) refl, n)

  -- What the program is configured by.
  abbrev pub IsConfigured : Running σ → Type 0
  IsConfigured r =
      (r.server.helpers.server_name ≡ name)
      × (r.server.num_threads ≡ num_threads e.hardware threads)
      × (r.handler.days_limit ≡ atoi days)
      × (r.handler.rows_limit ≡ atoi rows)
      × (r.sessions ≡ remotes e.ends)
      × (length r.output.reports ≡ failures endpoint + unreached e.ends)

  -- The DB_module that main makes.
  abbrev pub IsModule : Ptree → DbModule → Type 0
  IsModule config m =
      Database.construct e.hardware (by_parser (Classes.construct parser_db config).0) e.connect
        e.starts
      ≡ some m

  listen-IsConfigured :
      (what parsed : Text) (m : DbModule) (h : HttpHandler σ)
      → h.days_limit ≡ atoi days
      → h.rows_limit ≡ atoi rows
      → (r : Running σ) × (listen e what parsed parser m configured h ≡ some r) × IsConfigured r
  unfolding listen construct helpers
  listen-IsConfigured what parsed m h d l =
      let (o, z, n) = run_of_lem in
      (
        record {
          what = what;
          parsed = parsed;
          module_db = m;
          server = configured;
          handler = h;
          sessions = remotes e.ends;
          output = o;
        },
        rw z refl,
        (refl, refl, d, l, refl, n),
      )

  start-IsConfigured :
      (path what : Text) (config : Ptree) (m : DbModule)
      → e.read_ini path ≡ some config
      → config (section_name parser_server_http) ≡ some section
      → e.logger_starts name logs size ≡ true
      → IsModule config m
      → is_answered e m ≡ true
      → Counts e.backend
      → (r : Running σ) × (start e path what ≡ some (reached r)) × IsConfigured r
  unfolding start construct_from_file
  start-IsConfigured path what config m read found logger x answered counts =
      let (h, y, d, l) = handler_of_lem m answered counts in
      let (r, z, c) =
        listen-IsConfigured what
          ((Classes.construct parser_server_http config).1
            ++ (Classes.construct parser_db config).1)
          m h d l in
      (
        r,
        rw
            (
              read,
              construct-eq parser_server_http config section found,
              x,
              server_of_lem logger,
              y,
              construct-eq parser_server_http config section found,
              z,
            )
            refl,
        c,
      )

  start_blocked :
      (path what : Text) (config : Ptree) (m : DbModule)
      → e.read_ini path ≡ some config
      → config (section_name parser_server_http) ≡ some section
      → e.logger_starts name logs size ≡ true
      → IsModule config m
      → is_answered e m ≡ false
      → start e path what ≡ some blocked
  unfolding start construct_from_file
  start_blocked path what config m read found logger x unanswered =
      rw
        (
          read,
          construct-eq parser_server_http config section found,
          x,
          server_of_lem logger,
          handler_of_blocked m unanswered,
        )
        refl

  -- The search of main, in a directory of which the file is fewer than four steps up.
  main-start :
      (dir : Directory) (n : ℕ)
      → n < 4
      → IsThere e.files config_name n dir
      → ((m : ℕ) → m < n → ¬ IsThere e.files config_name m dir)
      → main e dir ≡ start e (path_append (dir_text (up n dir)) config_name) []
  unfolding main
  main-start dir n near there nearer =
      let (s, x, p) = construct_near e.files config_name dir n near there nearer in rw (x, p) refl

  -- If the nearest directory with an ini file is fewer than four steps up from the working directory,
  -- the file is read and has a section Server_HTTP of at least nine entries, the logger starts, the
  -- DB_module has a thread and a connection that is not lost, and the database answers the count of the
  -- log's rows, then the program goes through its accepting loop, and its settings are those values of
  -- the section that stand at the indices, whatever their keys are: the name of the server, the number
  -- of threads and the two limits of the log. Each failed call is reported once, those of the acceptor
  -- with the section's address and port among them.
  pub main-IsConfigured :
      (dir : Directory) (n : ℕ) (config : Ptree) (m : DbModule)
      → n < 4
      → IsThere e.files config_name n dir
      → ((m : ℕ) → m < n → ¬ IsThere e.files config_name m dir)
      → e.read_ini (path_append (dir_text (up n dir)) config_name) ≡ some config
      → config (section_name parser_server_http) ≡ some section
      → e.logger_starts name logs size ≡ true
      → IsModule config m
      → e.lost < m.conns_established
      → 0 < m.threads_started
      → Counts e.backend
      → (r : Running σ) × (main e dir ≡ some (reached r)) × IsConfigured r
  main-IsConfigured dir n config m near there nearer read found logger x conns threads counts =
      let (r, y, c) =
        start-IsConfigured _ [] config m read found logger x (ground (arith, conns, threads))
          counts in
      (r, main-start dir n near there nearer ∙ y, c)

  -- If the nearest directory with an ini file is fewer than four steps up from the working directory,
  -- the file is read and has a section Server_HTTP of at least nine entries, and the logger starts, but
  -- no attempt to connect reaches the database, then the program waits for ever in the constructor of its handler, and never comes to its accepting loop.
  pub main-blocked :
      (dir : Directory) (n : ℕ) (config : Ptree)
      → n < 4
      → IsThere e.files config_name n dir
      → ((m : ℕ) → m < n → ¬ IsThere e.files config_name m dir)
      → e.read_ini (path_append (dir_text (up n dir)) config_name) ≡ some config
      → config (section_name parser_server_http) ≡ some section
      → e.logger_starts name logs size ≡ true
      → IsUnreachable e.connect
      → main e dir ≡ some blocked
  main-blocked dir n config near there nearer read found logger out_of_reach =
      let (m, x, zero_made, _) =
        construct-IsUnreachable e.hardware (by_parser (Classes.construct parser_db config).0)
          e.connect e.starts out_of_reach in
      main-start dir n near there nearer
      ∙ start_blocked _ [] config m read found logger x (ground (arith, zero_made))
