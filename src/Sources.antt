-- ===== src/Sources.antt =====
-- The sources of the repository's own: the transforms between paths and flat names, and the map,
-- environment, family and flag sources.
pub mod Transforms
pub mod Sorting
pub mod MapSource
pub mod Family
pub mod Environment
pub mod Flags
pub mod SortLaws
pub mod Leaves
pub mod Nested
pub mod RoundTrip
pub mod EnvKeys
pub mod Listed
