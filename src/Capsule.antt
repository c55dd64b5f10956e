-- ===== src/Capsule.antt =====
-- packages/weave/src/capsule: the documents of a Capsule, their schemas, loading and readiness.
pub mod Contracts
pub mod Schema
pub mod Lookup
pub mod Semantics
pub mod Confirm
pub mod Readiness
pub mod Load
