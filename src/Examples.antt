-- ===== src/Examples.antt =====
-- Concrete inputs at which the theorems' hypotheses hold.
pub mod Samples
pub mod Stages
pub mod Requests
pub mod Sweeps
pub mod Splits
pub mod Passages
pub mod Removals
pub mod Metrics
pub mod Artifacts
pub mod Pipeline
pub mod Embedding
pub mod Searches
pub mod Types
pub mod Accounts
pub mod Uploads
pub mod Evaluations
