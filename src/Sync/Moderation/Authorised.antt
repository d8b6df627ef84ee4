-- ===== src/Sync/Moderation/Authorised.antt =====
-- moderation.go: whose commands make a spot disappear.
pub mod Owners
pub mod Hidden
