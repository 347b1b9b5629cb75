-- ===== src/Refresh/Items.antt =====
-- backend/db/refresh_run_items.py: claiming, deferring and completing a work item.
pub mod Claims
pub mod V6
pub mod Claim
pub mod Settle
