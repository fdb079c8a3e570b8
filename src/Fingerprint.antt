-- ===== src/Fingerprint.antt =====
-- Fingerprints of systems and their merging across sources (quipucords/fingerprinter/runner.py).
pub mod Model
pub mod Merge
pub mod Dedup
pub mod Matching
pub mod Sources
pub mod Build
pub mod Creation
pub mod Whole
