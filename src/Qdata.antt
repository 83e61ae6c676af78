-- ===== src/Qdata.antt =====
-- qdata/qdata.go: the query and result model, one child for each of its sections.
pub mod Predicate
pub mod Plan
pub mod Signals
pub mod Attrs
pub mod Query
pub mod Identifier
pub mod Result
pub mod Table
