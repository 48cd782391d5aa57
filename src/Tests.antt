-- ===== src/Tests.antt =====
-- The theorems at concrete inputs, component by component.
mod Parser
mod Database
mod Handler
mod Inotify
mod Server
mod Client
mod Sessions
mod Startup
pub mod Main
