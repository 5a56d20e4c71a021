-- ===== src/Sweeper.antt =====
-- The cron jobs of backend/app/workers/sweeper.py.
pub mod Orphans
pub mod Live
pub mod Bounds
pub mod Pipeline
pub mod Recovery
pub mod Guarantees
