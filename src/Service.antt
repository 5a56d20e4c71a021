-- ===== src/Service.antt =====
-- The document service and the document API.
pub mod Methods
pub mod Changes
pub mod Reprocess
pub mod Upload
pub mod State
pub mod Removal
