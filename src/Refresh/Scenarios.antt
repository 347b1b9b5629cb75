-- ===== src/Refresh/Scenarios.antt =====
-- The theorems on refresh runs at concrete inputs: two runs of two items, with their claims,
-- answers and reports.
pub mod Overtaking
use x_bray.Base.{
  update_where, count_where, true, false, none, some, List, [], ◌∷◌, ◌≡◌, ◌≢◌, refl, ◌&&◌, arith,
  ltb, any_where, count_where, find_where, select_where, order_by, insert_by,
}
use x_bray.Refresh.Models.{
  RefreshRunState, RefreshWorkItemStatus, RefreshWorkItemOutcome, TaskStatus, aware,
  RefreshWorkItemSpec, RefreshRunStart, RefreshRunRecord, RefreshWorkItemRecord,
  RefreshWorkItemClaimRequest, RefreshWorkItemCompletion, RefreshWorkItemDeferral, sqlite, Db,
  empty_db,
}
use x_bray.Refresh.Transaction.{ok, is_run, in_run, transaction, utc_iso}
use x_bray.Refresh.Scheduler.{item_eligibility, provider_eligibility, source_scope_for_task}
use x_bray.Refresh.RetryPolicy.{failed_work_item_is_retryable, failed_work_item_is_resolved}
use x_bray.Refresh.Items.V6.{is_claimable, choose_from, consider, earlier_rows}
use x_bray.Refresh.Items.Settle.{settle_claim, is_current_claim, complete_work_item_claim}
use x_bray.Refresh.Finalize.{is_finalizable}
use x_bray.Refresh.Commands.{Command, create, claim, complete, execute, execute_all}
use x_bray.Refresh.Commands.Exclusion.{one_live_claim}
use x_bray.Refresh.Commands.Endings.{ended_run_is_final}
use x_bray.Refresh.Commands.Fenced.{lost_lease_has_no_effect}
use x_bray.Refresh.Safety.Exclusive.{IsExclusive}
use x_bray.Refresh.Safety.Fencing.{completes, defers, give, answer_is_final}
use x_bray.Refresh.Safety.Stale.{stale_answer_is_refused}
use x_bray.Refresh.Safety.LegacyOrder.{legacy_claim_in_order}
use x_bray.Refresh.Items.Claim.{waits_before, expected_is_blocked, take_eligible, claim_legacy_item}
use x_bray.Refresh.Safety.Order.{holds_back, v6_choice_in_order}
use x_bray.Refresh.Execution.Outcome.{final_state, report_status, task_results}
use x_bray.Refresh.Execution.Driver.{is_resolved_item}
use x_bray.Refresh.Execution.Reports.{report_agrees_with_state}
use x_bray.Refresh.Execution.Resolution.{resolved_run_is_finalizable}

abbrev two_specs : List RefreshWorkItemSpec
two_specs =
    record { item_key = "focus"; task = "focus"; task_order = 0 }
    ∷ record { item_key = "derived_snapshots"; task = "derived_snapshots"; task_order = 1 }
    ∷ []

abbrev first_start : RefreshRunStart
first_start = record {
  run_id = "run-1";
  cycle_id = "cycle-1";
  force = false;
  manifest_version = "daily-refresh-v6";
  derived_cutoff = none;
  macro_cutoff = none;
  items = two_specs;
  now = aware 1000;
  lease_expires_at = aware 5000;
  sgs_plan = none;
}

abbrev first_claim : RefreshWorkItemClaimRequest
first_claim = record {
  run_id = "run-1";
  now = aware 1100;
  claim_expires_at = aware 2000;
  expected_item_key = some "focus";
}

abbrev first_completion : RefreshWorkItemCompletion
first_completion = record {
  run_id = "run-1";
  item_key = "focus";
  claim_token = "token-1";
  status = RefreshWorkItemOutcome.succeeded;
  finished_at = aware 1200;
  series_updated = 3;
  record_count = 40;
  error_code = none;
  error_category = none;
}

abbrev first_commands : List Command
first_commands = create first_start ∷ claim first_claim "token-1" ∷ complete first_completion ∷ []

one_live_claim_example : IsExclusive 1200 (execute_all first_commands (empty_db sqlite))
one_live_claim_example =
    one_live_claim sqlite first_commands (omega arith, (omega arith, (omega arith, tt)))

abbrev ended_run : RefreshRunRecord
ended_run = record {
  run_id = "run-0";
  cycle_id = "cycle-0";
  state = RefreshRunState.partial;
  force = false;
  manifest_version = "daily-refresh-v6";
  derived_cutoff = none;
  macro_cutoff = none;
  created_at = 100;
  updated_at = 900;
  finished_at = some 900;
  final_result = none;
}

abbrev ended_db : Db
ended_db = record (empty_db sqlite) { runs = ended_run ∷ [] }

ended_run_is_final_example :
    find_where (is_run "run-0") (execute_all first_commands ended_db).runs ≡ some ended_run
unfolding find_where
ended_run_is_final_example = ended_run_is_final "run-0" ended_run first_commands ended_db refl refl

abbrev open_run : RefreshRunRecord
open_run = record ended_run {
  run_id = "run-1";
  state = RefreshRunState.running;
  updated_at = 1100;
  finished_at = none;
}

abbrev claimed_item : RefreshWorkItemRecord
claimed_item = record {
  run_id = "run-1";
  item_key = "focus";
  task = "focus";
  task_order = 0;
  status = RefreshWorkItemStatus.claimed;
  attempt = 1;
  claim_token = some "token-1";
  claim_expires_at = some 2000;
  claimed_at = some 1100;
  created_at = 1000;
  updated_at = 1100;
  finished_at = none;
  series_updated = 0;
  record_count = 0;
  error_code = none;
  claim_generation = 1;
  acquisition_attempts = 0;
  next_attempt_at = none;
  deferral_reason = none;
  last_error_category = none;
  last_error_code = none;
}

abbrev claimed_db : Db
claimed_db = record (empty_db sqlite) {
  runs = open_run ∷ [];
  items = claimed_item ∷ [];
  lease = some (record { owner = "run-1"; expires_at = 5000 });
}

abbrev stolen_db : Db
stolen_db = record claimed_db { lease = some (record { owner = "run-2"; expires_at = 5000 }) }

lost_lease_has_no_effect_example : execute (complete first_completion) stolen_db ≡ stolen_db
lost_lease_has_no_effect_example =
    lost_lease_has_no_effect (complete first_completion) stolen_db refl refl

abbrev late_deferral : RefreshWorkItemDeferral
late_deferral = record {
  run_id = "run-1";
  item_key = "focus";
  claim_token = "token-1";
  next_attempt_at = aware 9000;
  reason = "retry_after";
  now = aware 1300;
  error_category = none;
  error_code = none;
}

abbrev answered_db : Db
answered_db = (give (completes first_completion) claimed_db).1

answer_is_final_example :
    ((give (defers late_deferral) answered_db).0 ≢ ok true)
    × ((give (defers late_deferral) answered_db).1 ≡ answered_db)
unfolding complete_work_item_claim transaction utc_iso settle_claim is_current_claim count_where
    any_where
answer_is_final_example =
    answer_is_final (completes first_completion) (defers late_deferral) claimed_db refl
      (omega arith) refl

stale_answer_is_refused_example :
    ((give (completes first_completion) stolen_db).0 ≢ ok true)
    × ((give (completes first_completion) stolen_db).1 ≡ stolen_db)
unfolding any_where
stale_answer_is_refused_example =
    stale_answer_is_refused (completes first_completion) stolen_db refl

abbrev pub pending_item : RefreshWorkItemRecord
pending_item = record claimed_item {
  status = RefreshWorkItemStatus.pending;
  attempt = 0;
  claim_token = none;
  claim_expires_at = none;
  claimed_at = none;
  claim_generation = 0;
}

abbrev pub derived_item : RefreshWorkItemRecord
derived_item = record pending_item {
  item_key = "derived_snapshots";
  task = "derived_snapshots";
  task_order = 1;
}

abbrev succeeded_item : RefreshWorkItemRecord
succeeded_item = record claimed_item {
  status = RefreshWorkItemStatus.succeeded;
  finished_at = some 1200;
}

-- The rows as stored, the later item first.
abbrev half_done_db : Db
half_done_db = record claimed_db { items = derived_item ∷ succeeded_item ∷ [] }

abbrev half_done_rows : List RefreshWorkItemRecord
half_done_rows = succeeded_item ∷ derived_item ∷ []

v6_choice_in_order_example :
    (is_claimable (some "derived_snapshots") 1300 derived_item ≡ true)
    × ((item_eligibility sqlite [] "derived_snapshots" 1300).eligible ≡ true)
    × (any_where
          (λ r.
            in_run "run-1" r
            && (ltb r.task_order 1 && holds_back sqlite [] 1300 "derived_snapshots" r))
          half_done_db.items
        ≡ false)
unfolding order_by insert_by select_where choose_from consider is_claimable earlier_rows
    item_eligibility provider_eligibility source_scope_for_task
v6_choice_in_order_example =
    v6_choice_in_order half_done_db "run-1" (some "derived_snapshots") 1300 half_done_rows
      half_done_db.items derived_item refl refl

abbrev failed_item : RefreshWorkItemRecord
failed_item = record claimed_item {
  status = RefreshWorkItemStatus.failed;
  attempt = 2;
  error_code = some "SchemaError";
  last_error_category = some "invalid_schema";
}

abbrev final_items : List RefreshWorkItemRecord
final_items =
    failed_item ∷ record succeeded_item { item_key = "b3_di"; task = "b3_di"; task_order = 1 } ∷ []

resolved_run_is_finalizable_example :
    is_finalizable (final_state final_items) "daily-refresh-v6" "run-1" final_items ≡ true
unfolding order_by insert_by select_where any_where is_resolved_item failed_work_item_is_resolved
    failed_work_item_is_retryable source_scope_for_task
resolved_run_is_finalizable_example =
    resolved_run_is_finalizable "daily-refresh-v6" "run-1" final_items refl

report_agrees_with_state_example : report_status (task_results final_items) ≡ TaskStatus.partial
unfolding any_where final_state
report_agrees_with_state_example = report_agrees_with_state final_items refl

abbrev waiting_db : Db
waiting_db = record claimed_db { items = derived_item ∷ pending_item ∷ [] }

abbrev legacy_claimed_item : RefreshWorkItemRecord
legacy_claimed_item = record claimed_item {
  claim_token = some "token-2";
  claim_expires_at = some 1900;
  claimed_at = some 1300;
  updated_at = 1300;
}

legacy_claim_in_order_example :
    (legacy_claimed_item.claim_token ≡ some "token-2")
    × (legacy_claimed_item.claim_expires_at ≡ some 1900)
    × (any_where (waits_before "run-1" 0 1300) waiting_db.items ≡ false)
unfolding claim_legacy_item expected_is_blocked take_eligible order_by insert_by select_where
    count_where find_where update_where
legacy_claim_in_order_example =
    legacy_claim_in_order "run-1" none "token-2" 1300 1900 waiting_db legacy_claimed_item refl
