-- ===== src/Snapshot.antt =====
-- snapshot.go: the build of a snapshot.
pub mod Layers
pub mod Resolve
pub mod Canonical
pub mod Stamp
pub mod Values
pub mod Reads
pub mod Views
pub mod Secrets
pub mod Below
