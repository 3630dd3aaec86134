-- ===== src/Admin.antt =====
-- The admin's pages of retrobridge/admin/routes.py: devices and ports, deletion, and settings.
pub mod Tables
pub mod Devices
pub mod Deletion
pub mod Operations
pub mod Settings
mod Tests
