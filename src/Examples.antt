-- ===== src/Examples.antt =====
-- Tests on concrete inputs, and instances of the properties.
pub mod Paths
pub mod Resolution
pub mod Writes
pub mod Reads
pub mod Inputs
pub mod Sets
pub mod Watching
pub mod Texts
pub mod Views
