-- ===== src/Refresh.antt =====
-- The daily refresh run: its tables, its transactions and the worker that advances it.
pub mod Models
pub mod Transaction
pub mod RetryPolicy
pub mod Scheduler
pub mod Items
pub mod Lifecycle
pub mod Finalize
pub mod Safety
pub mod Leases
pub mod Scenarios
pub mod Commands
pub mod Commits
pub mod Execution
pub mod Client
pub mod Attempts
