-- ===== src/Query.antt =====
-- Queries (rust/src/query.rs, rust/src/query/compiled.rs): the children hold the parts.
pub mod Parse
pub mod Regex
pub mod Pattern
pub mod Match
pub mod Candidate
pub mod Compiled
pub mod Score
pub mod Spans
