-- ===== src/Search.antt =====
-- rust/src/search: the search over a list of entries.
pub mod Config
pub mod Cache
pub mod Rank
pub mod Collect
pub mod Modes
pub mod Execute
pub mod Engine
