-- ===== src/Tests.antt =====
-- The theorems at concrete inputs.
pub mod Data
pub mod Spotnet
pub mod Nntp
pub mod Store
pub mod Sync
pub mod Auth
pub mod Articles
pub mod Searches
pub mod Keeping
pub mod Settings
