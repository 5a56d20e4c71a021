-- ===== src/Evaluation.antt =====
-- backend/app/rag/evaluation: the metrics, the data and the runner.
pub mod Metrics
pub mod Agreement
pub mod Dataset
pub mod Ranks
pub mod Runner
pub mod Instrumented
pub mod Cases
pub mod Stages
