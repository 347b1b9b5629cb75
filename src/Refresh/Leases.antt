-- ===== src/Refresh/Leases.antt =====
-- The named leases and the task rows of backend/db/store.py: acquire_refresh_lease,
-- heartbeat_refresh_lease, release_refresh_lease, record_refresh_task_start and _finish.
pub mod Holding
pub mod Scenarios
use x_bray.Base.{
  ℕ, String, Bool, true, false, Option, none, some, List, [], ◌∷◌, ◌++◌, ◌==◌, ◌&&◌, ◌||◌, not, leb,
  ltb, nat_eq, is_none, find_where, update_where, count_where, select_where, any_where,
  if◌then◌else◌,
}

-- `lock_key` is the primary key of `refresh_leases`.
pub record LeaseRow : Type 0 where
  pub lock_key : String
  pub owner : String
  pub expires_at : ℕ

abbrev pub is_lock : String → LeaseRow → Bool
is_lock lock_key row = row.lock_key == lock_key

abbrev pub is_owned_lock : String → String → LeaseRow → Bool
is_owned_lock lock_key owner row = row.lock_key == lock_key && row.owner == owner

abbrev pub take_over : String → ℕ → LeaseRow → LeaseRow
take_over owner expires_at row = record row { owner = owner; expires_at = expires_at }

abbrev pub acquire_found :
    Option LeaseRow → String → String → ℕ → ℕ → List LeaseRow → Bool × List LeaseRow
acquire_found none lock_key owner expires_at now rows =
    (true, rows ++ record { lock_key = lock_key; owner = owner; expires_at = expires_at } ∷ [])
acquire_found (some row) lock_key owner expires_at now rows =
    if leb row.expires_at now
    then (true, update_where (is_lock lock_key) (take_over owner expires_at) rows)
    else (false, rows)

-- `INSERT … ON CONFLICT (lock_key) DO UPDATE … WHERE refresh_leases.expires_at <= now`
unfoldable pub acquire_refresh_lease :
    String → String → ℕ → ℕ → List LeaseRow → Bool × List LeaseRow
acquire_refresh_lease lock_key owner expires_at now rows =
    acquire_found (find_where (is_lock lock_key) rows) lock_key owner expires_at now rows

abbrev pub extend : ℕ → LeaseRow → LeaseRow
extend expires_at row = record row { expires_at = expires_at }

unfoldable pub heartbeat_refresh_lease : String → String → ℕ → List LeaseRow → Bool × List LeaseRow
heartbeat_refresh_lease lock_key owner expires_at rows = (
  nat_eq (count_where (is_owned_lock lock_key owner) rows) 1,
  update_where (is_owned_lock lock_key owner) (extend expires_at) rows,
)

unfoldable pub release_refresh_lease : String → String → List LeaseRow → Bool × List LeaseRow
release_refresh_lease lock_key owner rows = (
  nat_eq (count_where (is_owned_lock lock_key owner) rows) 1,
  select_where (λ row. not (is_owned_lock lock_key owner row)) rows,
)

-- A row of `refresh_task_status`, all columns; `task` is its primary key.
pub record TaskRow : Type 0 where
  pub task : String
  pub provider : String
  pub started_at : Option ℕ
  pub finished_at : Option ℕ
  pub last_attempt : Option ℕ
  pub last_success : Option ℕ
  pub status : String
  pub series_expected : ℕ
  pub series_updated : ℕ
  pub record_count : ℕ
  pub duration_ms : ℕ
  pub error : Option String

abbrev pub is_task : String → TaskRow → Bool
is_task task row = row.task == task

-- `finished_at` and `last_success` are not among the columns set.
abbrev pub started_row : String → ℕ → ℕ → TaskRow → TaskRow
started_row provider expected started_at row = record row {
  provider = provider;
  started_at = some started_at;
  last_attempt = some started_at;
  status = "running";
  series_expected = expected;
  series_updated = 0;
  record_count = 0;
  duration_ms = 0;
  error = none;
}

abbrev pub new_task_row : String → String → ℕ → ℕ → TaskRow
new_task_row task provider expected started_at = record {
  task = task;
  provider = provider;
  started_at = some started_at;
  finished_at = none;
  last_attempt = some started_at;
  last_success = none;
  status = "running";
  series_expected = expected;
  series_updated = 0;
  record_count = 0;
  duration_ms = 0;
  error = none;
}

unfoldable pub record_refresh_task_start : String → String → ℕ → ℕ → List TaskRow → List TaskRow
record_refresh_task_start task provider expected started_at rows =
    if any_where (is_task task) rows
    then update_where (is_task task) (started_row provider expected started_at) rows
    else rows ++ new_task_row task provider expected started_at ∷ []

-- The arguments of `record_refresh_task_finish`.
pub record TaskFinish : Type 0 where
  pub task : String
  pub status : String
  pub series_updated : ℕ
  pub record_count : ℕ
  pub duration_ms : ℕ
  pub error_code : Option String
  pub finished_at : ℕ
  pub record_success_timestamp : Bool

-- A run that updated a series and did not fail is a success.
abbrev pub is_success : TaskFinish → Bool
is_success finish =
    finish.record_success_timestamp
    && ltb 0 finish.series_updated
    && (finish.status == "ok" || finish.status == "partial")

abbrev last_success_of : Option TaskRow → Option ℕ
last_success_of none = none
last_success_of (some row) = row.last_success

abbrev pub preserved_success : TaskFinish → Option TaskRow → Option ℕ
preserved_success finish current =
    if is_success finish then some finish.finished_at else last_success_of current

abbrev pub finished_row : TaskFinish → Option ℕ → TaskRow → TaskRow
finished_row finish last_success row = record row {
  finished_at = some finish.finished_at;
  last_success = last_success;
  status = finish.status;
  series_updated = finish.series_updated;
  record_count = finish.record_count;
  duration_ms = finish.duration_ms;
  error = finish.error_code;
}

-- `attempt_is_current` is what `assert_current_refresh_attempt` finds; without an active attempt
-- it is not asked.
unfoldable pub record_refresh_task_finish :
    TaskFinish → Option Bool → List TaskRow → Bool × List TaskRow
record_refresh_task_finish finish (some false) rows = (false, rows)
record_refresh_task_finish finish _ rows = (
  true,
  update_where (is_task finish.task)
      (finished_row finish (preserved_success finish (find_where (is_task finish.task) rows))) rows,
)
