-- ===== src/Jobs.antt =====
-- The job queue of retrobridge/jobs/utils.py, and the admin's bulk cancellation.
pub mod Table
pub mod Cancel
pub mod Quota
pub mod Upload
pub mod Create
pub mod Output
pub mod Tests
