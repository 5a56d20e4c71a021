-- ===== src/Model.antt =====
-- The data of the backend: enums, errors, JSON details and the rows of the database.
pub mod Enums
pub mod Errors
pub mod Details
pub mod Rows
