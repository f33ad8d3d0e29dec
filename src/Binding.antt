-- ===== src/Binding.antt =====
-- What binding does with texts: the expansion of paths, the struct tags, and the references to keys.
pub mod Expansion
pub mod Ends
pub mod Tags
pub mod Options
pub mod Effects
pub mod References
pub mod ReferenceEnds
