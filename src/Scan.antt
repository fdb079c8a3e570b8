-- ===== src/Scan.antt =====
-- The life of a scan: its job, its tasks, and the Celery tasks that run them.
pub mod Status
pub mod Handle
pub mod Task
pub mod Job
pub mod Queue
pub mod World
pub mod Runner
pub mod Celery
pub mod Launch
