-- ===== src/Embedding.antt =====
-- The embedding of chunks: backend/app/core/decorator.py, backend/app/rag/embed/embed.py and `Ingester.embed`.
pub mod Backoff
pub mod Batches
pub mod Guarantees
