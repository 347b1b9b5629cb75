-- ===== src/Refresh/RetryPolicy.antt =====
-- backend/refresh_retry_policy.py: which failed work items may be tried again.
use x_bray.Base.{ℕ, String, Bool, false, Option, none, some, ◌==◌, ◌&&◌, ◌||◌, not, ltb}
use x_bray.Refresh.Scheduler.{source_scope_for_task}

abbrev pub in_retryable_failed_categories : String → Bool
in_retryable_failed_categories c =
    c == "network_timeout" || c == "network_reset" || c == "temporary_server_error"

abbrev pub in_permanent_failed_categories : String → Bool
in_permanent_failed_categories c =
    c == "invalid_schema"
    || c == "semantic_conflict"
    || c == "incomplete_coverage"
    || c == "authentication_error"
    || c == "configuration_error"
    || c == "forbidden_host"
    || c == "envelope_error"

unfoldable pub failed_item_is_retryable : Option String → ℕ → ℕ → Bool
failed_item_is_retryable none acquisitions max_attempts = false
failed_item_is_retryable (some category) acquisitions max_attempts =
    in_retryable_failed_categories category && ltb acquisitions max_attempts

unfoldable pub failed_item_is_resolved : Option String → ℕ → ℕ → Bool
unfolding failed_item_is_retryable
failed_item_is_resolved category acquisitions max_attempts =
    not (failed_item_is_retryable category acquisitions max_attempts)

-- The persisted task of a work item is never null (`task TEXT NOT NULL`).
unfoldable pub failed_work_item_is_retryable : String → Option String → ℕ → ℕ → ℕ → Bool
unfolding failed_item_is_retryable
failed_work_item_is_retryable task category acquisitions attempts max_attempts =
    elim (source_scope_for_task task) [
      | none ↦ ltb attempts max_attempts
      | some scope ↦ failed_item_is_retryable category acquisitions max_attempts
    ]

unfoldable pub failed_work_item_is_resolved : String → Option String → ℕ → ℕ → ℕ → Bool
unfolding failed_work_item_is_retryable
failed_work_item_is_resolved task category acquisitions attempts max_attempts =
    not (failed_work_item_is_retryable task category acquisitions attempts max_attempts)
