-- ===== src/Refresh/Leases/Scenarios.antt =====
-- The theorems on leases and task rows at concrete inputs.
use x_bray.Base.{true, false, none, some, List, [], ◌∷◌, ◌≡◌, refl, arith, find_where}
use x_bray.Refresh.Leases.{LeaseRow, acquire_refresh_lease, TaskRow, TaskFinish}
use x_bray.Refresh.Leases.Holding.{lease_is_exclusive}

abbrev old_leases : List LeaseRow
old_leases = record { lock_key = "refresh"; owner = "worker-0"; expires_at = 500 } ∷ []

lease_is_exclusive_example :
    acquire_refresh_lease "refresh" "worker-2" 3000 900
      (acquire_refresh_lease "refresh" "worker-1" 2000 600 old_leases).1
    ≡ (false, (acquire_refresh_lease "refresh" "worker-1" 2000 600 old_leases).1)
unfolding acquire_refresh_lease find_where
lease_is_exclusive_example =
    lease_is_exclusive "refresh" "worker-1" "worker-2" 2000 600 900 3000 old_leases refl
      (omega arith)

abbrev focus_row : TaskRow
focus_row = record {
  task = "focus";
  provider = "bcb_focus";
  started_at = some 100;
  finished_at = some 200;
  last_attempt = some 100;
  last_success = some 200;
  status = "ok";
  series_expected = 4;
  series_updated = 4;
  record_count = 90;
  duration_ms = 100;
  error = none;
}

abbrev failed_finish : TaskFinish
failed_finish = record {
  task = "focus";
  status = "error";
  series_updated = 0;
  record_count = 0;
  duration_ms = 50;
  error_code = some "TimeoutError";
  finished_at = 950;
  record_success_timestamp = true;
}
