-- ===== src/DbCmd.antt =====
-- src/db_cmd.c: the commands `db info` and `db exec`.
pub mod Exec
pub mod Info
pub mod Report
