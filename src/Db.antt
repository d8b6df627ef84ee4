-- ===== src/Db.antt =====
-- internal/db: the SQLite store.
pub mod Kind
pub mod Columns
pub mod Schema
pub mod Migrations
pub mod KindSql
pub mod Tables
pub mod Invariant
pub mod Spots
pub mod Withdrawals
pub mod Progress
pub mod Safe
pub mod Fts
pub mod Search
pub mod Caches
pub mod Maintenance
pub mod SpotterLists
