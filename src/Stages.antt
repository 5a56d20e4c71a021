-- ===== src/Stages.antt =====
-- The stages of backend/app/workers/tasks.py.
pub mod Task
pub mod Artifacts
pub mod Bodies
pub mod RoundTrip
pub mod Replacement
pub mod Index
pub mod Pipeline
pub mod Liveness
pub mod Conversion
pub mod Delivery
pub mod Complete
pub mod Local
