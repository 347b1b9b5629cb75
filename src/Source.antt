-- ===== src/Source.antt =====
-- The access to data providers: circuits, request budgets, error categories.
pub mod Categories
pub mod Table
pub mod Circuit
pub mod Budget
pub mod Rollout
pub mod Scenarios
