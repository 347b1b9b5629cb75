-- ===== src/Refresh/Execution/Reports.antt =====
-- The final state of a run and the status of its report.
use x_bray.Base.{
  Bool, false, Option, none, some, List, [], ◌∷◌, ◌≡◌, refl, ◌||◌, arith, ap, ◌∙◌, is_none,
  any_where,
}
use x_bray.Refresh.Models.{
  RefreshRunFinalState, TaskStatus, TaskResult, RefreshWorkItemRecord, is_succeeded,
}
use x_bray.Refresh.Execution.Outcome.{
  add_result, is_not_success, is_not_failure, final_state, item_status, task_result, task_results,
  is_ok_status, is_useful_status, is_not_ok, is_useful, report_status,
}

-- An item that the report leaves out: a claim, or a pending item that was not deferred.
abbrev pub is_left_out : RefreshWorkItemRecord → Bool
is_left_out item = is_none (item_status item)

abbrev pub state_status : RefreshRunFinalState → TaskStatus
state_status RefreshRunFinalState.succeeded = TaskStatus.ok
state_status RefreshRunFinalState.partial = TaskStatus.partial
state_status RefreshRunFinalState.failed = TaskStatus.error

item_status-ok :
    (item : RefreshWorkItemRecord) (status : TaskStatus)
    → item_status item ≡ some status
    → is_ok_status status ≡ is_succeeded item.status
item_status-ok item status h = ground arith

item_status-useful :
    (item : RefreshWorkItemRecord) (status : TaskStatus)
    → item_status item ≡ some status
    → is_useful_status status ≡ is_not_failure item
item_status-useful item status h = ground arith

or-false : {a b : Bool} → (a || b) ≡ false → (a ≡ false) × (b ≡ false)
or-false {a} {b} h = (ground arith, ground arith)

module _ (q : TaskResult → Bool) (r : RefreshWorkItemRecord → Bool)
    (agree : (item : RefreshWorkItemRecord) (status : TaskStatus)
      → item_status item ≡ some status
      → q (task_result item status) ≡ r item) where
  any_where-add_result :
      (item : RefreshWorkItemRecord) (entry : Option TaskStatus) (rest : List TaskResult)
      → item_status item ≡ entry
      → is_none entry ≡ false
      → any_where q (add_result item entry rest) ≡ (r item || any_where q rest)
  unfolding any_where
  any_where-add_result item none rest e h = absurd (ground arith)
  any_where-add_result item (some status) rest e h = rw (agree item status e) refl

  -- A test of the entries is a test of the items, where no item is left out.
  any_where-task_results :
      (items : List RefreshWorkItemRecord)
      → any_where is_left_out items ≡ false
      → any_where q (task_results items) ≡ any_where r items
  unfolding any_where task_results
  any_where-task_results [] h = refl
  any_where-task_results (item ∷ items) h =
      any_where-add_result item (item_status item) (task_results items) refl (or-false h).0
      ∙ ap (λ b. r item || b) (any_where-task_results items (or-false h).1)

-- When every item is final or deferred, the status of the report is that of the final state:
-- `ok` for a success, `error` for a failure, `partial` otherwise.
pub report_agrees_with_state :
    (items : List RefreshWorkItemRecord)
    → any_where is_left_out items ≡ false
    → report_status (task_results items) ≡ state_status (final_state items)
unfolding report_status final_state
report_agrees_with_state items h =
    rw
      (
        any_where-task_results is_not_ok is_not_success
            (λ item status e. ground (arith, item_status-ok item status e)) items h,
        any_where-task_results is_useful is_not_failure item_status-useful items h,
      )
      (ground arith)
