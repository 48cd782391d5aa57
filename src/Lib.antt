-- ===== src/Lib.antt =====
-- pet_project: an HTTP server for songs. Its parts, and the modules here that model them:
--
-- - ini_and_parser/src/parser.cpp, ini_and_parser/include/parser.h: sections of an ini file as
--   arrays of C strings. Parser/CString has the buffers, Parser/Massives the class Parser (Array: a
--   `char**` that is null, freed or live), Parser/Classes its four subclasses. Boost's property
--   tree is the function that finds a section. Parser/Search is Config_searching, the search for the
--   ini file from the working directory.
-- - DB_module/src/DB_module.cpp, DB_module/include/DB_module.h: Database/Result is PG_result; a
--   PGresult is the record of what libpq answers for it. Database/Pool is connection_pool,
--   thread_pool and exec_command: a step relation in which a client, the workers and the destructor
--   take their steps in any order; Database/Pool/Service is the abstract service: a queue of
--   commands, and those that are being carried out or are finished, which have no order (a quotient
--   of lists). Database/Connect makes the connections of a pool, Database/Startup has the constructors of DB_module and the pools, and Database/Shutdown a
--   worker's wait for the condition variable and the destructor of thread_pool, step by step.
-- - Handler/src/handler.cpp, Handler/include/handler.h: Handler/Request is the vector of strings
--   `req_info` as a record; Handler/Tables is forming_tables_helper; Handler/Dir is
--   Server_dir_handler; Handler/Http is Server_HTTP_handler, with its state and its calls of the
--   database in Handler/Http/State, the log table in Handler/Http/Log and the rest in
--   Handler/Http/Files; Handler/Inotify is Inotify_DB_handler.
-- - Inotify_module/src/inotify_module.cpp: Inotify is the watcher of the folder of songs, which
--   calls Inotify_DB_handler for each event of the kernel; Inotify/Table has the SQL commands of those
--   calls and the table of songs; Inotify/Startup has its constructors, create_inotify, set_folder
--   and its destructor.
-- - Server_HTTP/include/server_http.h, Server_HTTP/src/server_http.cpp: Server/Mime is
--   Audio_mime_type, Server/Request is Handle_request, which calls one of the two other handlers,
--   Server/Session is the loop of a Session over what Asio's operations end in, and Server/Startup
--   has Srvr_hlpr_clss, Server_HTTP, Listener and the constructor of Session. Server/Handlers has
--   the session with the handler for the database.
-- - Server_HTTP/src/main.cpp: Server/Main composes these parts to the program of the server with the
--   database: Parser/Search, Parser/Classes, Database/Startup, Server/Startup and Handler/Http/Log.
-- - Client_HTTP/src/client_http.cpp: Client has the lists of the ini file, the loop of one session
--   over its targets (Looper) and the name of a downloaded file; Client/Sessions has the same loop
--   for any number of sessions, each atomic operation a step; Client/Session is do_session from the
--   resolving of the name to the shutdown, and Client/Startup the constructor and run.
-- - Logger/src/logger.cpp: Logger is open_file, which chooses the file for the records, and
--   Logger/Dialogue the dialogue that creates a folder, which Inotify_module repeats.
--
-- Base has what they share: texts as lists of bytes, C's `int`, std::to_string and std::atoi,
-- Boolean tests and lists. Tests has the theorems at concrete inputs.
--
-- Parameters. What libpq, the file system, the kernel, std::hash and Boost answer is an argument of
-- the definitions: Backend for the database and for the other sessions that use the counter of log
-- rows, FileSystem and LogEntry for directories, Round and Read for poll and read, Opened for the
-- opening of a file, Ptree for a parsed ini file, Search.FileSystem for the directories above an
-- ini file, Input for std::cin, SysResult for inotify, Endpoint and Accepted for the server's
-- acceptor, System for the server's program, Round of Client/Session for the client's operations. A
-- theorem that relies on how they answer says so in a hypothesis, such as Answers in
-- Handler/Http/Files/Total or Executes in Inotify/Table.
--
-- Undefined behaviour and exceptions. A function that can meet them returns an Option, and `none`
-- is such an end: a null or freed pointer that is read, an index behind a vector, the last byte of
-- an empty text, a failed directory iterator. A call that waits for ever is `blocked`.
--
-- Bounds and fuel. `digits_loop` and `to_string` divide by ten and run on fuel `n + 1`, which is
-- enough since each round but the last divides a number that is not 0. `watching_from` takes the
-- rounds that the kernel gives. The client's `parse_loop` takes a comma away in each round and runs
-- on as many rounds as the text has bytes and one more. Every other
-- loop is a recursion on a list. C's `int` is an integer; only the counter of log rows is
-- incremented, and `increment` wraps it; the client's number of loops is only counted down from a
-- positive number.
--
-- `searching_forward` of Parser/Search runs on the depth of its recursion, 5, since a directory is
-- entered at the levels 0 to 3 only, and `upward` on the 5 tests of its loop. The client's index is
-- a std::size_t that wraps at 2^64; the theorems about several sessions take lists shorter than that.
--
-- Not modelled: ini_and_parser/src/parser_sys_calls.cpp, an older parser that is not built; the
-- copying and the assignment of a parser, whose arrays have no identity here; the threads that only run Asio's io_context, spurious wake-ups of condition variables, directories that
-- cannot be read, the main programs but the server's, scripts and tests. Records for the log and for
-- std::cerr are lists where the code's result depends on them, and are left out elsewhere.
pub mod Base
pub mod Parser
pub mod Database
pub mod Handler
pub mod Inotify
pub mod Server
pub mod Client
pub mod Logger
pub mod Tests
