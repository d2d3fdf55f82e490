-- ===== src/Migrate.antt =====
-- src/migrate/migrations.c, src/migrate/main.c and src/migrate/snapshot.c. The child processes, the
-- file system and the path buffers answer through an `Env`; the trace lists, in order, the calls
-- that write a file. A path is named by what it is: the database, the dry-run copy, the backup.
pub mod Run
pub mod Args
pub mod Snapshot
pub mod Exec
pub mod Preflight
