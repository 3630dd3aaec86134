-- ===== src/Api.antt =====
-- The JSON interface of retrobridge/api/routes.py.
pub mod Jobs
pub mod Events
pub mod Sessions
mod Tests
