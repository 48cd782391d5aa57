-- ===== src/Server.antt =====
-- Server_HTTP: `Server/Mime` is the class Audio_mime_type, `Server/Request` the
-- class Handle_request, `Server/Session` the loop of the class Session, `Server/Startup` the other
-- classes and the constructors, `Server/Handlers` the session with the database.
pub mod Mime
pub mod Request
pub mod Session
pub mod Startup
pub mod Handlers
pub mod Main
