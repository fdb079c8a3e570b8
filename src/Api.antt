-- ===== src/Api.antt =====
-- The REST interface (quipucords/api): what it accepts and stores.
pub mod Source
