-- ===== src/Configs.antt =====
-- configs.go: a set of named registries, with their events in one stream.
pub mod Registries
pub mod Names
