-- ===== src/Refresh/Commits/Scenarios.antt =====
-- The theorems on transactions at concrete inputs: an attempt commits a batch, sends it again with
-- other values, and loses its claim.
use x_bray.Base.{ℕ, false, none, some, List, [], ◌∷◌, ◌++◌, ◌≡◌, refl, any_where, find_where}
use x_bray.Refresh.Models.{
  RefreshRunState, RefreshWorkItemStatus, RefreshRunRecord, RefreshWorkItemRecord, Db, sqlite,
  empty_db,
}
use x_bray.Refresh.Attempts.{AttemptContext}
use x_bray.Refresh.Commits.{
  CommitReceipt, CommitDb, returns, claim_commit_receipt, write_once, attempt_error,
  assert_current_refresh_attempt, execute_transaction,
}
use x_bray.Refresh.Commits.Once.{
  CommitCommand, commits, refreshes, left_by, commit_step, commit_all, receipt_is_written_once,
}
use x_bray.Refresh.Commits.Currency.{lost_claim_writes_nothing}

abbrev running_run : RefreshRunRecord
running_run = record {
  run_id = "run-1";
  cycle_id = "cycle-1";
  force = false;
  state = RefreshRunState.running;
  manifest_version = "daily-refresh-v6";
  derived_cutoff = none;
  macro_cutoff = none;
  created_at = 1000;
  updated_at = 1000;
  finished_at = none;
  final_result = none;
}

abbrev focus_item : RefreshWorkItemRecord
focus_item = record {
  run_id = "run-1";
  item_key = "focus";
  task = "focus";
  task_order = 0;
  status = RefreshWorkItemStatus.claimed;
  attempt = 1;
  claim_token = some "token-1";
  claim_expires_at = some 2000;
  claimed_at = some 1100;
  created_at = 1000;
  updated_at = 1100;
  finished_at = none;
  series_updated = 0;
  record_count = 0;
  error_code = none;
  claim_generation = 1;
  acquisition_attempts = 1;
  next_attempt_at = none;
  deferral_reason = none;
  last_error_category = none;
  last_error_code = none;
}

abbrev focus_attempt : AttemptContext
focus_attempt = record {
  attempt_id = "attempt-1";
  run_id = "run-1";
  item_key = "focus";
  attempt_number = 1;
  generation = 1;
  claim_token = "token-1";
  expires_at = 2000;
}

abbrev run_db : Db
run_db = record (empty_db sqlite) {
  runs = running_run ∷ [];
  items = focus_item ∷ [];
  lease = some (record { owner = "run-1"; expires_at = 5000 });
}

-- The statements add observations to a list.
abbrev fresh_db : CommitDb (List ℕ)
fresh_db = record { refresh = run_db; receipts = []; business = [] }

abbrev receipt : CommitReceipt
receipt = record {
  extraction_id = "extraction-1";
  selected_route = "primary";
  candidate_id = none;
  observation_count = 2;
  source_payload_sha256 = "digest";
  committed_at = 1200;
}

abbrev committed_db : CommitDb (List ℕ)
committed_db = record fresh_db { receipts = receipt ∷ []; business = 7 ∷ 8 ∷ [] }

abbrev writes : List ℕ → List ℕ
writes stored = stored ++ 7 ∷ 8 ∷ []

commits_batch :
    execute_transaction (some focus_attempt) 1200 1200 (some receipt) writes fresh_db
    ≡ returns committed_db
unfolding execute_transaction attempt_error assert_current_refresh_attempt write_once
    claim_commit_receipt any_where find_where
commits_batch = refl

-- In between the run's claim is taken from the item.
abbrev in_between : List (CommitCommand (List ℕ))
in_between = refreshes (λ db. record db { items = [] }) ∷ []

receipt_is_written_once_example :
    commit_step
      (commits none 1400 1400 (some receipt) (λ stored. []))
      (commit_all in_between committed_db)
    ≡ commit_all in_between committed_db
receipt_is_written_once_example =
    receipt_is_written_once (some focus_attempt) 1200 1200 receipt writes fresh_db committed_db
      commits_batch in_between none 1400 1400 receipt (λ stored. []) refl

-- At 2000 the claim has expired.
lost_claim_writes_nothing_example :
    left_by fresh_db
      (execute_transaction (some focus_attempt) 2000 2000 (some receipt) writes fresh_db)
    ≡ fresh_db
unfolding any_where
lost_claim_writes_nothing_example =
    lost_claim_writes_nothing focus_attempt 2000 2000 (some receipt) writes fresh_db refl
