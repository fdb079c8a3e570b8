-- ===== src/Scanners.antt =====
-- Parts of the scanners that do not talk to remote systems (quipucords/scanner).
pub mod Inventory
pub mod Satellite
