-- ===== src/Domain/Readiness.antt =====
-- The report on how ready a part of the domain is (src/domain/readiness.ts), with its documents
-- from src/domain/contracts.ts.
pub mod Documents
pub mod Closure
pub mod Reasons
pub mod Report
