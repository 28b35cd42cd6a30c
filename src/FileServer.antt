-- ===== src/FileServer.antt =====
-- Midterm: the concurrent file access server, its client queues, its commands and its requests.
pub mod Queue
pub mod Command
pub mod Files
pub mod Requests
pub mod Main
pub mod Startup
pub mod Client
