-- ===== src/Refresh/Lifecycle.antt =====
-- backend/db/refresh_run_lifecycle.py: a run is created once, under the daily lease, and resumed
-- under the same run id and manifest; an expired run of another owner is failed on the way.
pub mod Manifest
pub mod Insert
pub mod Abandon
pub mod Create
