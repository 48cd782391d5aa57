-- ===== src/Database.antt =====
-- DB_module: `Database/Result` is the class PG_result, `Database/Pool` the pools of connections and of
-- threads at work together, `Database/Connect` the making of the connections, `Database/Startup` the
-- constructors, and `Database/Shutdown` the end of the thread pool.
pub mod Result
pub mod Pool
pub mod Connect
pub mod Startup
pub mod Shutdown
