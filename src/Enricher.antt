-- ===== src/Enricher.antt =====
-- The enricher of ievent/enricher.
pub mod Queue
pub mod Retries
pub mod Reads
pub mod Reader
pub mod Fleet
