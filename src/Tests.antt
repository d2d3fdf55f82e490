-- ===== src/Tests.antt =====
-- Runs of the definitions on small inputs, and the theorems applied to them.
mod Storage
mod Sampling
mod Daemon
mod Serving
mod Alerting
mod Commands
mod Texts
mod Upgrade
