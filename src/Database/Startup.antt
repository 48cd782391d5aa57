-- ===== src/Database/Startup.antt =====
-- DB_module/src/DB_module.cpp and include/DB_module.h: the constructors of DB_module and of its two
-- pools. hardware_concurrency(), which threads the system starts, and libpq are arguments.
pub mod Unreached
pub mod Working
use pet_project.Base.{
  ℕ, zero, suc, ◌+◌, ◌*◌, Bool, true, false, Option, none, some, List, [], ◌∷◌, ltb, length,
  replicate, if◌then◌else◌, ◌>>=◌,
}
use pet_project.Base.Int.{ℤ, pos, negsuc, int_ltb}
use pet_project.Parser.Massives.{Array, null, dangling, live, Parser}
use pet_project.Parser.Classes.{parser_db, parsed_info_ptr}
use pet_project.Database.Pool.{Worker, idle, Pool}
use pet_project.Database.Connect.{Connections, make_connections}

-- DB_module::conns_threads_count
abbrev pub conns_threads_count : ℕ → ℕ
conns_threads_count hardware = if ltb 0 hardware then hardware else 1

-- thread_pool::starting_threads, from thread `i` on: a thread that std::thread's constructor does not
-- start is left out.
unfoldable pub starting_threads : ℕ → (ℕ → Bool) → ℕ → List Worker
starting_threads zero starts i = []
starting_threads (suc count) starts i =
    let rest = starting_threads count starts (i + 1) in if starts i then idle ∷ rest else rest

-- thread_pool()
pub default_thread_pool : ℕ → (ℕ → Bool) → List Worker
unfolding starting_threads
default_thread_pool hardware starts =
    starting_threads (if ltb 0 hardware then hardware * 2 else 1) starts 0

-- thread_pool(threads_count); `none` is std::logic_error
unfoldable pub thread_pool : ℤ → (ℕ → Bool) → Option (List Worker)
unfolding starting_threads
thread_pool (pos zero) starts = none
thread_pool (pos (suc n)) starts = some (starting_threads (suc n) starts 0)
thread_pool (negsuc n) starts = none

abbrev pub no_connections : Connections
no_connections = record { conns_deque = []; conns_established = 0 }

-- What the connections are made from: a parser's two arrays, or a string, which may be null.
pub data ConnInfo : Type 0 where
  by_parser : Parser → ConnInfo
  by_conninfo : Bool → ConnInfo

abbrev is_null : Array → Bool
is_null null = true
is_null dangling = false
is_null (live cells) = false

-- connection_pool(conn_count, p_DB) and connection_pool(conn_count, conninfo)
unfoldable pub connection_pool : ℕ → ConnInfo → (ℕ → ℕ → ℕ × Bool) → Connections
unfolding make_connections parsed_info_ptr
connection_pool conn_count (by_parser p) connect =
    if is_null (parsed_info_ptr parser_db b'k' p)
    then no_connections
    else if is_null (parsed_info_ptr parser_db b'v' p)
    then no_connections
    else make_connections conn_count connect
connection_pool conn_count (by_conninfo is_nullptr) connect =
    if is_nullptr then no_connections else make_connections conn_count connect

-- A DB_module: its pools, and what its pools say about themselves.
pub record DbModule : Type 0 where
  pub pool : Pool
  pub conns_established : ℕ
  pub threads_started : ℕ

-- DB_module(p_DB) and DB_module(conninfo)
unfoldable pub construct : ℕ → ConnInfo → (ℕ → ℕ → ℕ × Bool) → (ℕ → Bool) → Option DbModule
unfolding connection_pool thread_pool
construct hardware info connect starts = do
  let conns = connection_pool (conns_threads_count hardware) info connect
  threads ← thread_pool (pos (conns_threads_count hardware)) starts
  some (record {
    pool = record {
      conns_deque = conns.conns_deque;
      task_deque = [];
      workers = threads;
      done = false;
      finished = [];
      lost = [];
    };
    conns_established = conns.conns_established;
    threads_started = length threads;
  })

-- conns_threads_amount
abbrev pub conns_threads_amount : DbModule → ℕ × ℕ
conns_threads_amount m = (m.conns_established, m.threads_started)

-- function_wrapper::operator(): a wrapper without an implementation does nothing.
unfoldable pub call {ℓ} : {S : Type ℓ} → Option (S → S) → S → S
call none s = s
call (some f) s = f s
