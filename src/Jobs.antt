-- ===== src/Jobs.antt =====
-- crates/jobs: scheduled jobs and the logs of their runs.
pub mod Log
pub mod Summary
pub mod Entry
pub mod Run
