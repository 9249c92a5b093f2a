-- ===== src/Server.antt =====
-- backend/cmd/server: the HTTP API. Http has requests, responses and headers, Tracker the
-- last-access table, Queue the task queue's interface, and the others the handlers.
pub mod Http
pub mod Tracker
pub mod Queue
pub mod Tasks
pub mod Startup
pub mod Detector
pub mod Routes
pub mod Abandonment
pub mod Logs
pub mod Workers
pub mod Cors
pub mod Filer
