-- ===== src/Backend.antt =====
-- remote_inmemory.go: the in-memory backend of remote sources.
pub mod Memory
pub mod Notify
