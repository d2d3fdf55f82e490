-- ===== src/Http.antt =====
-- src/http.c: the HTTP server.
pub mod Slots
pub mod Cores
pub mod Stream
pub mod Answer
