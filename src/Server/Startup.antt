-- ===== src/Server/Startup.antt =====
-- Server_HTTP/src/server_http.cpp and include/server_http.h: the classes Srvr_hlpr_clss, Server_HTTP
-- and Listener, and the constructor of Session. Asio is an argument: the messages of the error codes
-- that its calls set.
pub mod Listening
use pet_project.Base.{
  ℕ, zero, suc, ◌-◌, ◌%◌, Bool, true, false, ◌&&◌, Option, none, some, List, [], ◌∷◌, ◌++◌, ltb,
  max, if◌then◌else◌, ◌>>=◌,
}
use pet_project.Base.Text.{Text, lit}
use pet_project.Base.Int.{ℤ, pos, negsuc}
use pet_project.Base.Decimal.{atoi, to_string}

-- std::max<int>(1, std::min<int>(hardware_concurrency(), std::atoi(text)))
unfoldable pub num_threads : ℕ → Text → ℕ
unfolding atoi
num_threads hardware text = elim (atoi text) [
  | pos n ↦ max 1 (if ltb n hardware then n else hardware)
  | negsuc n ↦ 1
]

-- static_cast<port_type>(std::atoi(text)), to 16 bits
unfoldable pub port_of : Text → ℕ
unfolding atoi
port_of text = elim (atoi text) [ pos n ↦ n % 65536 | negsuc n ↦ 65535 - n % 65536 ]

-- Srvr_hlpr_clss: which of its pointers are set. `if_fail` has the logger that it was made with.
pub record Helpers : Type 0 where
  pub server_name : Text
  pub logger : Bool
  pub if_fail : Option Bool
  pub mime_type : Bool
  -- the folder of a Server_dir_handler
  pub handler : Option Text

-- Srvr_hlpr_clss(parser, bool_logger, bool_if_fail, bool_mime_type, bool_handler)
unfoldable pub helpers : Text → Text → Bool → Bool → Bool → Bool → Bool → Helpers
helpers server_name files_folder logger_started bool_logger bool_if_fail bool_mime_type
      bool_handler =
    record {
      server_name = server_name;
      logger = bool_logger && logger_started;
      if_fail = if bool_if_fail then some (bool_logger && logger_started) else none;
      mime_type = bool_mime_type;
      handler = if bool_handler then some files_folder else none;
    }

-- What is written to the log, which needs a logger, and to std::cerr.
pub record Output : Type 0 where
  pub log : List Text
  pub reports : List Text

pub record Server : Type 0 where
  pub helpers : Helpers
  pub num_threads : ℕ
  pub output : Output

abbrev no_output : Output
no_output = record { log = []; reports = [] }

-- if_fail->fail_report(ec, reason), for ec.message() if it is set; without `if_fail` a null pointer is
-- called.
unfoldable pub fail_report : Helpers → Option Text → Text → Output → Option Output
fail_report h ec reason o = do
  has_logger ← h.if_fail
  let message = reason ++ elim ec [ none ↦ [] | some m ↦ m ]
  some (record {
    log = if has_logger then o.log ++ message ∷ [] else o.log;
    reports = o.reports ++ message ∷ [];
  })

-- logger->make_record(…), without a test
unfoldable pub make_record : Helpers → Text → Output → Option Output
make_record h message o = if h.logger then some (record o { log = o.log ++ message ∷ [] }) else none

-- Server_HTTP(s_h_c): a logger that has not started is let go.
unfoldable pub construct : ℕ → Text → Bool → Helpers → Server
unfolding num_threads
construct hardware threads_text logger_started h = record {
  helpers = record h { logger = logger_started; if_fail = some logger_started };
  num_threads = num_threads hardware threads_text;
  output =
      if logger_started
      then record { log = (h.server_name ++ lit " starting...") ∷ []; reports = [] }
      else record {
        log = [];
        reports = lit "Server_HTTP logger didn't start, continue without logging" ∷ [];
      };
}

-- ~Server_HTTP
unfoldable pub destruct : Server → Output
destruct s =
    if s.helpers.logger
    then record s.output {
      log = s.output.log ++ (s.helpers.server_name ++ lit " stopping...") ∷ [];
    }
    else s.output

-- A bound acceptor has its port.
pub data Acceptor : Type 0 where
  unopened opened : Acceptor
  bound listening : ℕ → Acceptor

-- The texts of the ini file, and the error code that each call sets, if it does.
pub record Endpoint : Type 0 where
  pub address : Text
  pub port : Text
  pub address_ec : Option Text
  pub open_ec : Option Text
  pub option_ec : Option Text
  pub bind_ec : Option Text
  pub listen_ec : Option Text

-- A report for a call that has set an error code.
abbrev pub report_if : Helpers → Option Text → Text → Output → Option Output
report_if h none reason o = some o
report_if h (some m) reason o = fail_report h (some m) reason o

abbrev pub listening_record : Helpers → Endpoint → Text
listening_record h e =
    lit "Server "
    ++ (h.server_name
        ++ (lit " starts listening port " ++ (e.port ++ (lit " with IP-address: " ++ e.address))))

abbrev with_acceptor : Acceptor → Option Output → Option (Acceptor × Output)
with_acceptor a r = do o ← r; some (a, o)

-- The constructor of Listener from `bind` on.
unfoldable pub bind_and_listen : Helpers → Endpoint → Output → Option (Acceptor × Output)
unfolding fail_report make_record port_of
bind_and_listen h e o = elim e.bind_ec [
  | some m ↦
      with_acceptor opened (fail_report h (some m) (lit "Failed to bind to the server address: ") o)
  | none ↦ do
    p ←
        report_if h e.listen_ec
          (lit "Failed to set the maximum length of the queue of pending incoming connections: ") o
    with_acceptor
        (elim e.listen_ec [ none ↦ listening (port_of e.port) | some m ↦ bound (port_of e.port) ])
        (make_record h (listening_record h e) p)
]

unfoldable pub listener : Helpers → Endpoint → Output → Option (Acceptor × Output)
unfolding bind_and_listen
listener h e o = elim e.address_ec [
  | some m ↦
      with_acceptor unopened (fail_report h (some m) (lit "Something wrong with ip address: ") o)
  | none ↦ elim e.open_ec [
    | some m ↦ with_acceptor unopened (
        fail_report h (some m) (lit "Failed to open acceptor using specified ip address and port: ")
          o)
    | none ↦ do
      p ←
          report_if h e.option_ec
            (lit "Failed to allow the socket to be bound to an address that is already in use: ") o
      bind_and_listen h e p
  ]
]

-- Session(socket): the remote end, or the error's message.
pub data Remote : Type 0 where
  no_endpoint : Text → Remote
  endpoint : Text → ℕ → Remote

unfoldable pub session : Helpers → Remote → Output → Option Output
unfolding fail_report make_record
session h (no_endpoint m) o = fail_report h (some m) (lit "Failed to get remote endpoint: ") o
session h (endpoint address port) o =
    make_record h
      (lit "Connected to IP-address: " ++ (address ++ (lit ", port: " ++ to_string port))) o

-- What async_accept ends in.
pub data Accepted : Type 0 where
  accept_failed : Text → Accepted
  accepted : Remote → Accepted

-- accepting_loop, for these ends: the sessions that have been made.
unfoldable pub accepting_loop : Helpers → List Accepted → Output → Option (List Remote × Output)
unfolding session fail_report
accepting_loop h [] o = some ([], o)
accepting_loop h (accept_failed m ∷ ends) o = do
  p ← fail_report h (some m) (lit "Failed to accept: ") o
  accepting_loop h ends p
accepting_loop h (accepted r ∷ ends) o = do
  p ← session h r o
  (sessions, q) ← accepting_loop h ends p
  some (r ∷ sessions, q)

-- run(): the listener, and its loop whether or not it listens
unfoldable pub run : Endpoint → List Accepted → Server → Option (List Remote × Output)
unfolding listener accepting_loop
run e ends s = do (acceptor, o) ← listener s.helpers e s.output; accepting_loop s.helpers ends o
