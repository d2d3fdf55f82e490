-- ===== src/Alerts.antt =====
-- src/alerts.c: the alerts.
pub mod Url
pub mod Reply
pub mod Deliver
pub mod Condition
pub mod Evaluate
pub mod Fire
