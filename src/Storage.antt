-- ===== src/Storage.antt =====
-- Object storage: the keys of the artifacts.
pub mod Keys
pub mod Cache
pub mod Backend
pub mod Signatures
pub mod Mime
pub mod Local
pub mod Streaming
pub mod Uploads
pub mod Failures
pub mod Files
pub mod Downloads
pub mod Detection
pub mod Validation
pub mod Matched
pub mod Accepted
pub mod Spaced
pub mod Confined
