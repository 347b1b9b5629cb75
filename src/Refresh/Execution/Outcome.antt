-- ===== src/Refresh/Execution/Outcome.antt =====
-- What an execution and a run come to: a completion, a final state and a report.
use x_bray.Base.{
  ℕ, String, Bool, true, false, Option, none, some, List, [], ◌∷◌, ◌==◌, ◌&&◌, ◌||◌, not, is_none,
  any_where, if◌then◌else◌,
}
use x_bray.Refresh.Models.{
  RefreshWorkItemStatus, RefreshWorkItemOutcome, RefreshRunFinalState, RawTimestamp, aware,
  TaskStatus, TaskResult, FinalResult, report, RefreshRunSnapshot, RefreshWorkItemRecord,
  RefreshWorkItemCompletion, RefreshRunFinalization, is_succeeded, is_failed, is_pending,
}
use x_bray.Refresh.Transaction.{persistence, Result, ok, err}

-- The columns of an execution's result that are read here; `status` is never `skipped` there.
pub record TaskExecution : Type 0 where
  pub status : TaskStatus
  pub error_code : Option String
  pub error_category : Option String
  pub retry_not_before : Option RawTimestamp
  pub series_updated : ℕ
  pub record_count : ℕ

abbrev pub has_code : String → Option String → Bool
has_code code none = false
has_code code (some c) = c == code

abbrev pub status_outcome : TaskStatus → RefreshWorkItemOutcome
status_outcome TaskStatus.ok = RefreshWorkItemOutcome.succeeded
status_outcome TaskStatus.partial = RefreshWorkItemOutcome.partial
status_outcome TaskStatus.error = RefreshWorkItemOutcome.failed
status_outcome TaskStatus.skipped = RefreshWorkItemOutcome.skipped

abbrev pub outcome_of : TaskExecution → RefreshWorkItemOutcome
outcome_of execution =
    if has_code "NoSuccessfulSourceTasks" execution.error_code
      || has_code "retired_source" execution.error_code
    then RefreshWorkItemOutcome.skipped
    else status_outcome execution.status

unfoldable pub completion :
    RefreshRunSnapshot
    → RefreshWorkItemRecord
    → TaskExecution
    → ℕ
    → Result RefreshWorkItemCompletion
completion snapshot claim execution now = elim claim.claim_token [
  | none ↦ err (persistence snapshot.run.run_id)
  | some token ↦ ok (record {
    run_id = snapshot.run.run_id;
    item_key = claim.item_key;
    claim_token = token;
    status = outcome_of execution;
    finished_at = aware now;
    series_updated = execution.series_updated;
    record_count = execution.record_count;
    error_code = execution.error_code;
    error_category = execution.error_category;
  })
]

abbrev pub is_not_success : RefreshWorkItemRecord → Bool
is_not_success item = not (is_succeeded item.status)

abbrev pub is_failed_or_skipped : RefreshWorkItemStatus → Bool
is_failed_or_skipped RefreshWorkItemStatus.failed = true
is_failed_or_skipped RefreshWorkItemStatus.skipped = true
is_failed_or_skipped _ = false

abbrev pub is_not_failure : RefreshWorkItemRecord → Bool
is_not_failure item = not (is_failed_or_skipped item.status)

unfoldable pub final_state : List RefreshWorkItemRecord → RefreshRunFinalState
final_state items =
    if not (any_where is_not_success items)
    then RefreshRunFinalState.succeeded
    else if not (any_where is_not_failure items)
    then RefreshRunFinalState.failed
    else RefreshRunFinalState.partial

-- The entry of one item in the report, or none: a pending item that was not deferred, a claim.
abbrev pub item_status : RefreshWorkItemRecord → Option TaskStatus
item_status item = elim item.status [
  | RefreshWorkItemStatus.succeeded ↦ some TaskStatus.ok
  | RefreshWorkItemStatus.partial ↦ some TaskStatus.partial
  | RefreshWorkItemStatus.failed ↦ some TaskStatus.error
  | RefreshWorkItemStatus.skipped ↦ some TaskStatus.skipped
  | RefreshWorkItemStatus.pending ↦
      if is_none item.deferral_reason then none else some TaskStatus.partial
  | RefreshWorkItemStatus.claimed ↦ none
]

abbrev pub task_result : RefreshWorkItemRecord → TaskStatus → TaskResult
task_result item status =
    let failed = is_failed item.status in
    let deferred = is_pending item.status && not (is_none item.deferral_reason) in
    record {
      name = item.task;
      status = status;
      error_code = item.error_code;
      error_category = if failed || deferred then item.last_error_category else none;
      last_error_code = if failed || deferred then item.last_error_code else none;
      retry_not_before = if deferred then item.next_attempt_at else none;
      deferral_reason = if deferred then item.deferral_reason else none;
    }

abbrev pub add_result :
    RefreshWorkItemRecord → Option TaskStatus → List TaskResult → List TaskResult
add_result item none results = results
add_result item (some status) results = task_result item status ∷ results

unfoldable pub task_results : List RefreshWorkItemRecord → List TaskResult
task_results [] = []
task_results (item ∷ items) = add_result item (item_status item) (task_results items)

abbrev pub is_ok_status : TaskStatus → Bool
is_ok_status TaskStatus.ok = true
is_ok_status _ = false

abbrev pub is_useful_status : TaskStatus → Bool
is_useful_status TaskStatus.ok = true
is_useful_status TaskStatus.partial = true
is_useful_status _ = false

abbrev pub is_not_ok : TaskResult → Bool
is_not_ok result = not (is_ok_status result.status)

abbrev pub is_useful : TaskResult → Bool
is_useful result = is_useful_status result.status

unfoldable pub report_status : List TaskResult → TaskStatus
report_status results =
    if not (any_where is_not_ok results)
    then TaskStatus.ok
    else if any_where is_useful results
    then TaskStatus.partial
    else TaskStatus.error

unfoldable pub final_result : List RefreshWorkItemRecord → FinalResult
unfolding task_results report_status
final_result items = let results = task_results items in report (report_status results) results

abbrev pub has_new_data : RefreshWorkItemStatus → Bool
has_new_data RefreshWorkItemStatus.succeeded = true
has_new_data RefreshWorkItemStatus.partial = true
has_new_data _ = false

abbrev pub finalization_of : RefreshRunSnapshot → ℕ → RefreshRunFinalization
finalization_of snapshot now = record {
  run_id = snapshot.run.run_id;
  state = final_state snapshot.items;
  final_result = final_result snapshot.items;
  finished_at = aware now;
  last_successful_update =
      if any_where (λ item. has_new_data item.status) snapshot.items
      then some (aware now)
      else none;
}
