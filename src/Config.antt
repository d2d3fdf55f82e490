-- ===== src/Config.antt =====
-- src/config.c and src/config.h: the configuration.
pub mod Duration
pub mod Settings
pub mod Datum
pub mod Load
pub mod Open
pub mod Unknown
