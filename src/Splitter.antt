-- ===== src/Splitter.antt =====
-- The splitter of backend/app/rag/chunk/splitter.py.
pub mod Split
pub mod Windows
