-- ===== src/Db.antt =====
-- src/db.c: the SQLite layer.
pub mod Tiers
pub mod Store
pub mod Snapshot
pub mod Open
pub mod Query
