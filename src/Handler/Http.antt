-- ===== src/Handler/Http.antt =====
-- Handler/src/handler.cpp, class Server_HTTP_handler. PostgreSQL is an argument: what PQexec gives
-- for a command. `none` is undefined behaviour or an exception. Other sessions may change the
-- counter of the log table while a call waits for the database: `others` says to what.
pub mod State
pub mod Log
pub mod Files
