-- ===== src/Refresh/Execution.antt =====
-- backend/refresh_run_state.py and backend/refresh_run_execution.py: a run is resumed, an item's
-- execution is turned into a completion or a deferral, and a resolved run is finalized with a
-- state and a report.
pub mod Resume
pub mod Outcome
pub mod Driver
pub mod Reports
pub mod Resolution
