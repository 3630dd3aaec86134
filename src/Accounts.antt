-- ===== src/Accounts.antt =====
-- The accounts: retrobridge/auth/routes.py, the users' part of retrobridge/admin/routes.py, and the link
-- with Patreon of retrobridge/integrations/patreon.py.
pub mod Throttle
pub mod Login
pub mod Users
pub mod Patreon
mod Tests
