-- ===== src/Refresh/Items/Claims.antt =====
-- The WHERE conditions and the SET lists that the statements on `refresh_work_items` share.
use x_bray.Base.{
  ℕ, String, Bool, false, Option, none, some, List, [], ◌∷◌, ◌==◌, ◌&&◌, ◌||◌, leb, ltb, is_after,
  is_due, update_where, select_where,
}
use x_bray.Refresh.Models.{
  RefreshWorkItemStatus, RefreshWorkItemRecord, RefreshRunRecord, Lease, TaskStatusRow, Db,
  is_pending, is_claimed, is_failed, is_running, max_work_item_attempts,
}
use x_bray.Refresh.Transaction.{in_run}

-- `status = 'claimed' AND claim_expires_at > now`
abbrev pub is_live_claim : ℕ → RefreshWorkItemRecord → Bool
is_live_claim now row = is_claimed row.status && is_after row.claim_expires_at now

abbrev pub live_in_run : String → ℕ → RefreshWorkItemRecord → Bool
live_in_run run_id now row = in_run run_id row && is_live_claim now row

-- `status = 'claimed' AND attempt >= MAX AND claim_expires_at <= now`
abbrev pub is_exhausted_claim : String → ℕ → RefreshWorkItemRecord → Bool
is_exhausted_claim run_id now row =
    in_run run_id row
    && is_claimed row.status
    && leb max_work_item_attempts row.attempt
    && is_due row.claim_expires_at now

-- `status = 'pending' OR (status = 'failed' AND attempt < MAX) OR (status = 'claimed' AND …)`
abbrev pub is_waiting : ℕ → RefreshWorkItemRecord → Bool
is_waiting now row =
    is_pending row.status
    || (is_failed row.status && ltb row.attempt max_work_item_attempts)
    || (is_claimed row.status
        && ltb row.attempt max_work_item_attempts
        && is_due row.claim_expires_at now)

abbrev pub is_owner : String → Option Lease → Bool
is_owner run_id none = false
is_owner run_id (some lease) = lease.owner == run_id

-- The live lease of `daily_refresh` is the run's.
abbrev pub has_live_lease : Option Lease → String → ℕ → Bool
has_live_lease none run_id now = false
has_live_lease (some lease) run_id now = lease.owner == run_id && ltb now lease.expires_at

-- `EXISTS (SELECT 1 FROM refresh_runs WHERE run_id = ? AND state = 'running')`
abbrev pub is_running_run : String → RefreshRunRecord → Bool
is_running_run run_id row = row.run_id == run_id && is_running row.state

abbrev pub failed_claim : ℕ → Option ℕ → String → RefreshWorkItemRecord → RefreshWorkItemRecord
failed_claim now finished code row = record row {
  status = RefreshWorkItemStatus.failed;
  claim_token = none;
  claim_expires_at = none;
  updated_at = now;
  finished_at = finished;
  error_code = some code;
}

-- `UPDATE refresh_task_status SET status = 'error', … WHERE task = ? AND status = 'running'`,
-- once for each task of the rows. A second time for one task changes nothing, so the DISTINCT
-- of the SELECT is left out.
unfoldable pub fail_task_rows :
    Option ℕ → Option String → List RefreshWorkItemRecord → List TaskStatusRow → List TaskStatusRow
fail_task_rows finished error [] tasks = tasks
fail_task_rows finished error (row ∷ rows) tasks = fail_task_rows finished error rows (
    update_where (λ t. t.task == row.task && t.status == "running")
      (λ t. record t { status = "error"; finished_at = finished; error = error }) tasks)

-- Claims that ran out of attempts while they lapsed are failed before a new claim.
unfoldable pub fail_exhausted_claims : String → ℕ → Db → Db
unfolding fail_task_rows
fail_exhausted_claims run_id now db = record db {
  items =
      update_where (is_exhausted_claim run_id now) (failed_claim now none "AttemptLimitExceeded")
        db.items;
  task_status =
      fail_task_rows none none (select_where (is_exhausted_claim run_id now) db.items)
        db.task_status;
}
