-- ===== src/Exposure.antt =====
-- The append-only ledger of model exposures and the reservations of holdout Tasks
-- (src/exposure/ledger.ts). A directory is a list of its files by name; the checks that it and its
-- parents are private, and the temporary file that is linked, are left out.
pub mod Documents
pub mod Records
pub mod Reserve
pub mod Write
pub mod Trace
