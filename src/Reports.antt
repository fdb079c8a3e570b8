-- ===== src/Reports.antt =====
-- Reports that are computed from the systems found (quipucords/api/aggregate_report/model.py).
pub mod Dates
pub mod Aggregate
