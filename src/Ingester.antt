-- ===== src/Ingester.antt =====
-- The ingestion state machine of backend/app/rag/ingestion.py.
pub mod Methods
pub mod Machine
pub mod Invariant
pub mod Frozen
pub mod Starts
pub mod Refinement
pub mod Effects
pub mod Completion
