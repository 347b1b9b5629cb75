-- ===== src/Refresh/Lifecycle/Abandon.antt =====
-- `_abandon_expired_run`: a run whose lease has expired is failed, unless a claim is live.
use x_bray.Base.{
  ℕ, String, Bool, Option, none, some, ◌&&◌, ◌||◌, not, update_where, select_where, find_where,
  any_where, if◌then◌else◌,
}
use x_bray.Refresh.Models.{
  RefreshRunState, RefreshWorkItemStatus, RefreshRunRecord, RefreshWorkItemRecord, Db, is_running,
  is_pending, is_claimed, lease_expired,
}
use x_bray.Refresh.Transaction.{lease_conflict, Result, ok, err, is_run, in_run}
use x_bray.Refresh.Items.Claims.{live_in_run, is_running_run, fail_task_rows}

abbrev pub is_open_item : String → RefreshWorkItemRecord → Bool
is_open_item run_id row = in_run run_id row && (is_pending row.status || is_claimed row.status)

abbrev pub abandoned_item : ℕ → RefreshWorkItemRecord → RefreshWorkItemRecord
abandoned_item now row = record row {
  status = RefreshWorkItemStatus.failed;
  claim_token = none;
  claim_expires_at = none;
  updated_at = now;
  finished_at = some now;
  error_code = some "RefreshLeaseExpired";
}

abbrev pub abandoned_run : ℕ → RefreshRunRecord → RefreshRunRecord
abandoned_run now row = record row {
  state = RefreshRunState.failed;
  updated_at = now;
  finished_at = some now;
  final_result = some lease_expired;
}

unfoldable pub fail_run : String → ℕ → Db → Db
unfolding fail_task_rows
fail_run owner now db = record db {
  items = update_where (is_open_item owner) (abandoned_item now) db.items;
  task_status =
      fail_task_rows (some now) (some "RefreshLeaseExpired")
        (select_where (is_open_item owner) db.items) db.task_status;
  runs = update_where (is_running_run owner) (abandoned_run now) db.runs;
}

abbrev pub abandon_found : Option RefreshRunRecord → String → ℕ → String → Db → Result Db
abandon_found none owner now new_owner db = ok db
abandon_found (some run) owner now new_owner db =
    if not (is_running run.state)
    then ok db
    else if any_where (live_in_run owner now) db.items
    then err (lease_conflict new_owner owner)
    else ok (fail_run owner now db)

unfoldable pub abandon_expired_run : String → ℕ → String → Db → Result Db
abandon_expired_run owner now new_owner db =
    abandon_found (find_where (is_run owner) db.runs) owner now new_owner db
