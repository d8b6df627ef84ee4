-- ===== src/Sync.antt =====
-- internal/sync: the workers that keep the store in step with the newsgroup.
pub mod Env
pub mod Moderation
pub mod Ingest
pub mod Forward
pub mod Backfill
pub mod Sweep
pub mod Maintenance
