-- ===== src/Retrieval.antt =====
-- backend/app/rag/retrieval.
pub mod Types
pub mod Passages
pub mod Budget
pub mod Runs
pub mod Context
pub mod Ranking
pub mod Search
pub mod Retrieve
pub mod Selection
pub mod Readable
pub mod Origins
pub mod Tenancy
pub mod Isolation
