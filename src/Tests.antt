-- ===== src/Tests.antt =====
-- Concrete inputs: the theorems applied to them, and runs of the definitions.
mod Fixtures
mod Plans
mod Requests
mod Results
mod Joins
mod Limits
mod PlainText
mod Logql
mod Lucene
mod Renders
