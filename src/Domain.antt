-- ===== src/Domain.antt =====
-- The claim dependency graph of a product's domain and the readiness report on a part of it
-- (src/domain/graph.ts, src/domain/readiness.ts).
pub mod Index
pub mod Search
pub mod Cycle
pub mod Contracts
pub mod Encode
pub mod Schema
pub mod Graph
pub mod Readiness
