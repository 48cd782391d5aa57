-- ===== src/Handler.antt =====
-- Handler/include/handler.h and src/handler.cpp. `Handler/Request` is the vector that the server and
-- its handlers share, `Handler/Tables` the formatting of tables, `Handler/Dir` the handler that
-- works with a directory, `Handler/Http` the one that works with the database, and
-- `Handler/Inotify` the handler of file events.
pub mod Request
pub mod Tables
pub mod Dir
pub mod Http
pub mod Inotify
