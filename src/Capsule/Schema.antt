-- ===== src/Capsule/Schema.antt =====
-- The schemas of packages/weave/src/capsule/contracts.ts, as tests on documents whose fields have
-- their types: patterns, bounds, uniqueness and the refinements across fields.
pub mod Patterns
pub mod Documents
pub mod Runs
pub mod Parse
