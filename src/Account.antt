-- ===== src/Account.antt =====
pub mod Types
pub mod Tokens
pub mod Users
pub mod Requests
pub mod Laws
pub mod Access
pub mod Renewal
pub mod Registration
pub mod Login
