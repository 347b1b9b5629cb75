-- ===== src/Refresh/Attempts/Scenarios.antt =====
-- The theorems on attempts at concrete inputs: one claimed item, an attempt that acquires, ends, and
-- is told to end again, and one that expires.
use x_bray.Base.{
  ◌+◌, ℕ, false, none, some, List, [], ◌∷◌, ◌≡◌, refl, any_where, update_where, select_where,
  find_where, count_where,
}
use x_bray.Refresh.Models.{RefreshWorkItemStatus, RefreshWorkItemRecord}
use x_bray.Refresh.Attempts.{
  AttemptContext, AttemptRow, AttemptDb, is_attempt, started_attempt, finished_attempt, succeeded,
}
use x_bray.Refresh.Attempts.Acquisition.{outbound_started, mark_refresh_acquisition_started}
use x_bray.Refresh.Attempts.Reconciliation.{
  reconcile_one, reconcile_candidates, reconcile_expired_refresh_attempts,
}
use x_bray.Refresh.Attempts.Reconciliation.Idempotence.{reconciliation_is_idempotent}
use x_bray.Refresh.Attempts.Histories.{
  AttemptCommand, marks, stages, finishes, reconciles, after, run,
}
use x_bray.Refresh.Attempts.Histories.Finality.{ended_attempt_is_final}
use x_bray.Refresh.Attempts.Histories.Counting.{total_acquisitions, acquisition_is_counted_once}

abbrev claimed_item : RefreshWorkItemRecord
claimed_item = record {
  run_id = "run-1";
  item_key = "focus";
  task = "focus";
  task_order = 0;
  status = RefreshWorkItemStatus.claimed;
  attempt = 1;
  claim_token = some "token-1";
  claim_expires_at = some 2000;
  claimed_at = some 1100;
  created_at = 1000;
  updated_at = 1100;
  finished_at = none;
  series_updated = 0;
  record_count = 0;
  error_code = none;
  claim_generation = 1;
  acquisition_attempts = 0;
  next_attempt_at = none;
  deferral_reason = none;
  last_error_category = none;
  last_error_code = none;
}

abbrev context : AttemptContext
context = record {
  attempt_id = "attempt-1";
  run_id = "run-1";
  item_key = "focus";
  attempt_number = 1;
  generation = 1;
  claim_token = "token-1";
  expires_at = 2000;
}

abbrev started_db : AttemptDb
started_db = record {
  postgres = false;
  items = claimed_item ∷ [];
  attempts = started_attempt context 1100 ∷ [];
  milestones = [];
  reconciliations = [];
}

abbrev marked_db : AttemptDb
marked_db = record started_db {
  items = record claimed_item { acquisition_attempts = 1; updated_at = 1150 } ∷ [];
  attempts = outbound_started 1150 (started_attempt context 1100) ∷ [];
}

abbrev ended_attempt : AttemptRow
ended_attempt =
    finished_attempt "committed" none (some 40) none 1300
      (outbound_started 1150 (started_attempt context 1100))

abbrev ended_db : AttemptDb
ended_db = record marked_db { attempts = ended_attempt ∷ [] }

abbrev history : List (ℕ × AttemptCommand)
history =
    (1160, stages "attempt-1" "fetched" "observed" none)
    ∷ (1170, marks context)
    ∷ (1300, finishes "attempt-1" "committed" none (some 40) none)
    ∷ (2100, reconciles (λ attempt_id. none) "run-1")
    ∷ []

marks_once : mark_refresh_acquisition_started context 1150 started_db ≡ succeeded marked_db
unfolding mark_refresh_acquisition_started any_where update_where count_where
marks_once = refl

acquisition_is_counted_once_example :
    (total_acquisitions marked_db.items ≡ total_acquisitions started_db.items + 1)
    × (after
          (run history marked_db)
          (mark_refresh_acquisition_started context 1400 (run history marked_db))
        ≡ run history marked_db)
unfolding any_where
acquisition_is_counted_once_example =
    acquisition_is_counted_once context 1150 started_db marked_db marks_once history 1400

ended_attempt_is_stored : find_where (is_attempt "attempt-1") ended_db.attempts ≡ some ended_attempt
unfolding find_where
ended_attempt_is_stored = refl

abbrev late_history : List (ℕ × AttemptCommand)
late_history = (1400, finishes "attempt-1" "failed" (some "late") none none) ∷ history

ended_attempt_is_final_example :
    find_where (is_attempt "attempt-1") (run late_history ended_db).attempts ≡ some ended_attempt
ended_attempt_is_final_example =
    ended_attempt_is_final "attempt-1" ended_attempt refl late_history ended_db
      ended_attempt_is_stored

reconciliation_is_idempotent_example :
    reconcile_expired_refresh_attempts
      (λ attempt_id. none)
      "run-1"
      2100
      (reconcile_expired_refresh_attempts (λ attempt_id. none) "run-1" 2100 started_db).1
    ≡ (0, (reconcile_expired_refresh_attempts (λ attempt_id. none) "run-1" 2100 started_db).1)
reconciliation_is_idempotent_example =
    reconciliation_is_idempotent (λ attempt_id. none) 2100 "run-1" started_db

-- The attempt that expired is reconciled once.
expired_attempt_counts :
    (reconcile_expired_refresh_attempts (λ attempt_id. none) "run-1" 2100 started_db).0 ≡ 1
unfolding reconcile_expired_refresh_attempts reconcile_candidates reconcile_one any_where
    select_where
expired_attempt_counts = refl
