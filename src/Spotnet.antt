-- ===== src/Spotnet.antt =====
-- internal/spotnet.
pub mod Crypto
pub mod Signing
pub mod Moderation
pub mod HeaderText
pub mod Parser
pub mod Nzb
pub mod Article
