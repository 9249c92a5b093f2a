-- ===== src/Worker.antt =====
-- backend/internal/worker: the handler of a task is in TaskHandler.
pub mod TaskHandler
pub mod Startup
pub mod Handover
