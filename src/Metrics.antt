-- ===== src/Metrics.antt =====
-- src/metrics.c: what the collector reads from /proc, /sys and statvfs. A file is its bytes, `none`
-- when it does not open.
pub mod Read
pub mod Cpu
pub mod Memory
pub mod Rates
pub mod Net
pub mod Temp
pub mod Collect
