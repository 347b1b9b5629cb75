-- ===== src/Admin.antt =====
-- Human administrators: backend/db/admin_auth.py, backend/admin_auth.py and migration 022.
pub mod Tables
pub mod Flows
pub mod Sessions
pub mod Members
pub mod Cleanup
pub mod Cookies
pub mod Routes
pub mod Commands
pub mod Events
pub mod Scenarios
