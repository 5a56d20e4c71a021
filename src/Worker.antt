-- ===== src/Worker.antt =====
-- The ARQ worker of backend/app/workers/tasks.py.
pub mod Stage
pub mod Keeps
pub mod Outcomes
pub mod Success
pub mod Backoff
pub mod Guarantees
