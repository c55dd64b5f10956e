-- ===== src/Validity.antt =====
-- What an episode's evidence is worth (src/validity), and the schema of the result.
pub mod Evidence
pub mod Evaluation
pub mod Schema
pub mod Laws
