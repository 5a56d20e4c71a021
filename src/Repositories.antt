-- ===== src/Repositories.antt =====
-- The repositories: queries and updates on the rows of a session.
pub mod Session
pub mod Jobs
pub mod Documents
pub mod Chunks
