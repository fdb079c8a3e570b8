-- ===== src/Facts.antt =====
-- From the raw facts of a system to the facts of its fingerprint (quipucords/fingerprinter/runner.py,
-- quipucords/fingerprinter/formatters.py, quipucords/utils/deepget.py).
pub mod Deepget
pub mod Formatters
pub mod Rows
pub mod Dates
pub mod Network
pub mod Vcenter
pub mod Clusters
pub mod Satellite
pub mod Process
