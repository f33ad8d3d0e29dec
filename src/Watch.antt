-- ===== src/Watch.antt =====
-- watch.go and events.go: the watch engine, which reloads the registry after its sources change, and
-- the events it delivers.
pub mod Diff
pub mod DiffLaws
pub mod Engine
pub mod Steps
pub mod Delivery
pub mod Settle
pub mod Reload
