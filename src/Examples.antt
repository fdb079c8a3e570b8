-- ===== src/Examples.antt =====
-- The theorems at concrete inputs.
mod Scan
mod Launch
mod Queue
mod Fingerprint
mod Matching
mod Sources
mod Products
mod Facts
mod Normalize
mod Scanners
mod Reports
mod Api
