-- ===== src/Refresh/Execution/Resolution.antt =====
-- Items that a driver calls resolved: what a claim and a finalization make of them.
use x_bray.Base.{
  ℕ, String, Bool, true, false, Option, List, ◌≡◌, ◌&&◌, not, arith, is_none, any_where,
  select_where, any_where-select, any_where_mono, any_where-order_by, order_by,
}
use x_bray.Refresh.Models.{RefreshWorkItemRecord, is_pending}
use x_bray.Refresh.Transaction.{in_run, task_order_of}
use x_bray.Refresh.RetryPolicy.{failed_work_item_is_resolved}
use x_bray.Refresh.Items.V6.{is_claimable}
use x_bray.Refresh.Finalize.{is_unfinished, is_retryable_failure, wants_success, is_finalizable}
use x_bray.Refresh.Execution.Outcome.{final_state, is_not_success}
use x_bray.Refresh.Execution.Driver.{is_v6, is_resolved_item}

-- An item that a v6 driver calls resolved is one that a v6 claim passes over.
pub resolved_is_not_claimable :
    (version : String) (item : RefreshWorkItemRecord) (expected : Option String) (now : ℕ)
    → is_v6 version ≡ true
    → is_resolved_item version item ≡ true
    → is_claimable expected now item ≡ false
unfolding is_resolved_item is_claimable failed_work_item_is_resolved
resolved_is_not_claimable version item expected now v6 h = ground (arith, v6)

-- An item of the run that is neither resolved nor, in v6, put off.
abbrev pub is_open_for : String → String → RefreshWorkItemRecord → Bool
is_open_for version run_id item =
    in_run run_id item
    && not (is_resolved_item version item)
    && not (is_v6 version && is_pending item.status && not (is_none item.deferral_reason))

unfinished-open :
    (version run_id : String) (row : RefreshWorkItemRecord)
    → is_unfinished (is_v6 version) run_id row ≡ true
    → is_open_for version run_id row ≡ true
unfolding is_resolved_item
unfinished-open version run_id row h = ground arith

retryable-open :
    (version run_id : String) (row : RefreshWorkItemRecord)
    → is_retryable_failure (is_v6 version) run_id row ≡ true
    → is_open_for version run_id row ≡ true
unfolding is_resolved_item failed_work_item_is_resolved
retryable-open version run_id row h = ground arith

final_state-success :
    (items : List RefreshWorkItemRecord)
    → wants_success (final_state items) ≡ true
    → any_where is_not_success items ≡ false
unfolding final_state
final_state-success items h = ground arith

-- Once no item of the run is open, the guards of the finalization hold for the state that the
-- driver computes from the snapshot.
pub resolved_run_is_finalizable :
    (version run_id : String) (items : List RefreshWorkItemRecord)
    → any_where (is_open_for version run_id) items ≡ false
    → is_finalizable
        (final_state (order_by task_order_of (select_where (in_run run_id) items)))
        version
        run_id
        items
      ≡ true
unfolding is_finalizable
resolved_run_is_finalizable version run_id items h =
    let read = order_by task_order_of (select_where (in_run run_id) items) in
    ground (
      arith,
      any_where_mono (is_unfinished (is_v6 version) run_id) (is_open_for version run_id) items
          (λ row k. unfinished-open version run_id row k) h,
      any_where_mono (is_retryable_failure (is_v6 version) run_id) (is_open_for version run_id)
          items (λ row k. retryable-open version run_id row k) h,
      final_state-success read,
      any_where-order_by task_order_of is_not_success (select_where (in_run run_id) items),
      any_where-select is_not_success (in_run run_id) items,
    )
