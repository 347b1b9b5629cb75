-- ===== src/Refresh/Items/V6.antt =====
-- `_claim_v6_item`, the choice: which item of a `daily-refresh-v6` run may be claimed now, and
-- which items are put off on the way.
use x_bray.Base.{
  ℕ, ◌+◌, String, Bool, true, false, Option, none, some, List, [], ◌∷◌, ◌==◌, ◌&&◌, ◌||◌, not, leb,
  ltb, nat_eq, is_after, is_due, is_none, later_of, update_where, select_where, order_by,
  count_where, find_where, if◌then◌else◌,
}
use x_bray.Refresh.Models.{
  RefreshWorkItemStatus, RefreshWorkItemRecord, AccessRow, Backend, Db, is_pending, is_claimed,
  is_failed, max_work_item_attempts,
}
use x_bray.Refresh.Transaction.{type_error, Result, ok, err, in_run, is_item, task_order_of}
use x_bray.Refresh.RetryPolicy.{failed_work_item_is_retryable}
use x_bray.Refresh.Scheduler.{
  Cell, null, text, timestamptz, AccessState, item_eligibility, state_of_scope,
  source_scope_for_task,
}

-- What the loop does with a row: pass over it, write the time of its next attempt, or take it.
pub data Decision : Type 0 where
  skip : Decision
  cooldown : ℕ → Decision
  dependency : ℕ → Decision
  take : Decision
  fault : Decision

-- `optional_text` of a column: a `datetime` is no text.
abbrev pub cell_text : Cell → Result (Option ℕ)
cell_text null = ok none
cell_text (text t) = ok (some t)
cell_text (timestamptz t) = err (type_error "nullable text")

abbrev pub is_retryable_row : RefreshWorkItemRecord → Bool
is_retryable_row row =
    failed_work_item_is_retryable row.task row.last_error_category row.acquisition_attempts
      row.attempt max_work_item_attempts

abbrev pub is_derived_task : String → Bool
is_derived_task task =
    task == "derived_snapshots" || task == "macro_score" || task == "inflation_target_rules"

abbrev pub is_resolved_status : RefreshWorkItemStatus → Bool
is_resolved_status RefreshWorkItemStatus.succeeded = true
is_resolved_status RefreshWorkItemStatus.partial = true
is_resolved_status RefreshWorkItemStatus.skipped = true
is_resolved_status _ = false

abbrev pub matches_expected : Option String → String → Bool
matches_expected none item_key = true
matches_expected (some expected) item_key = item_key == expected

-- The guards of the loop, before the provider is looked at.
unfoldable pub is_claimable : Option String → ℕ → RefreshWorkItemRecord → Bool
is_claimable expected now row =
    matches_expected expected row.item_key
    && ltb row.acquisition_attempts max_work_item_attempts
    && not (is_failed row.status && not (is_retryable_row row))
    && not (is_after row.next_attempt_at now)
    && not (is_claimed row.status && is_after row.claim_expires_at now)
    && (is_pending row.status || is_failed row.status || is_claimed row.status)

-- `max(retry_not_before, opened_until, probe_lease_until)` over the columns that are set.
abbrev pub cooldown_of : Option AccessState → Decision
cooldown_of none = skip
cooldown_of (some state) = elim (cell_text state.retry_not_before) [
  | err e ↦ fault
  | ok retry ↦ elim (cell_text state.opened_until) [
    | err e ↦ fault
    | ok opened ↦ elim (cell_text state.probe_lease_until) [
      | err e ↦ fault
      | ok lease ↦ elim (later_of (later_of retry opened) lease) [
        | none ↦ skip
        | some at ↦ cooldown at
      ]
    ]
  ]
]

module _ (backend : Backend) (access : List AccessRow) (now : ℕ) where
  -- The inner loop: an earlier row that is open blocks, one that is put off blocks derived work.
  unfoldable pub earlier_rows : String → ℕ → List RefreshWorkItemRecord → Decision
  earlier_rows task order [] = take
  earlier_rows task order (row ∷ rows) =
      let rest = earlier_rows task order rows in
      if leb order row.task_order
      then take
      else if is_resolved_status row.status
      then rest
      else if is_failed row.status && not (is_retryable_row row)
      then rest
      else if is_after row.next_attempt_at now
      then (if is_derived_task task
          then elim row.next_attempt_at [ none ↦ skip | some at ↦ dependency at ]
          else rest)
      else if (item_eligibility backend access row.task now).eligible
      then skip
      else rest

  unfoldable pub consider :
      Option String → List RefreshWorkItemRecord → RefreshWorkItemRecord → Decision
  consider expected rows row =
      if not (is_claimable expected now row)
      then skip
      else if not (item_eligibility backend access row.task now).eligible
      then cooldown_of (state_of_scope backend access (source_scope_for_task row.task))
      else earlier_rows row.task row.task_order rows

-- `UPDATE … SET next_attempt_at = ?, deferral_reason = ?, error_code = 'Deferred', updated_at = ?`
abbrev pub put_off : ℕ → ℕ → String → RefreshWorkItemRecord → RefreshWorkItemRecord
put_off now at reason row = record row {
  next_attempt_at = some at;
  deferral_reason = some reason;
  error_code = some "Deferred";
  updated_at = now;
}

abbrev pub is_cooldown_target : String → String → RefreshWorkItemRecord → Bool
is_cooldown_target run_id item_key row =
    is_item run_id item_key row && (is_pending row.status || is_failed row.status)

abbrev pub is_dependency_target : String → String → RefreshWorkItemRecord → Bool
is_dependency_target run_id item_key row =
    is_item run_id item_key row && is_pending row.status && is_none row.deferral_reason

unfoldable pub apply_cooldown :
    String → String → ℕ → ℕ → List RefreshWorkItemRecord → List RefreshWorkItemRecord
apply_cooldown run_id item_key now at =
    update_where (is_cooldown_target run_id item_key) (put_off now at "publisher_cooldown")

unfoldable pub apply_dependency :
    String → String → ℕ → ℕ → List RefreshWorkItemRecord → List RefreshWorkItemRecord
apply_dependency run_id item_key now at =
    update_where (is_dependency_target run_id item_key)
      (put_off now at "source_dependency_deferred")

module _ (backend : Backend) (access : List AccessRow) (now : ℕ) (run_id : String)
    (expected : Option String) (all_rows : List RefreshWorkItemRecord) where
  -- The outer loop over the rows that were read, with the table that its updates change.
  unfoldable pub choose_from :
      List RefreshWorkItemRecord
      → List RefreshWorkItemRecord
      → Result (Option RefreshWorkItemRecord × List RefreshWorkItemRecord)
  choose_from [] table = ok (none, table)
  choose_from (row ∷ rows) table = elim (consider backend access now expected all_rows row) [
    | skip ↦ choose_from rows table
    | cooldown at ↦ choose_from rows (apply_cooldown run_id row.item_key now at table)
    | dependency at ↦ choose_from rows (apply_dependency run_id row.item_key now at table)
    | take ↦ ok (some row, table)
    | fault ↦ err (type_error "nullable text")
  ]

abbrev pub take_claim : String → ℕ → ℕ → RefreshWorkItemRecord → RefreshWorkItemRecord
take_claim token now expires_at row = record row {
  status = RefreshWorkItemStatus.claimed;
  claim_generation = row.claim_generation + 1;
  attempt = row.attempt + 1;
  claim_token = some token;
  claim_expires_at = some expires_at;
  claimed_at = some now;
  updated_at = now;
  finished_at = none;
  series_updated = 0;
  record_count = 0;
  error_code = none;
  next_attempt_at = none;
  deferral_reason = none;
}

-- The WHERE of the claiming UPDATE.
abbrev pub is_takeable : String → String → ℕ → RefreshWorkItemRecord → Bool
is_takeable run_id item_key now row =
    is_item run_id item_key row
    && (is_pending row.status || is_failed row.status || is_claimed row.status)
    && ltb row.acquisition_attempts max_work_item_attempts
    && (is_none row.next_attempt_at || is_due row.next_attempt_at now)

unfoldable pub take_chosen :
    String
    → String
    → ℕ
    → ℕ
    → Option RefreshWorkItemRecord
    → List RefreshWorkItemRecord
    → Option RefreshWorkItemRecord × List RefreshWorkItemRecord
take_chosen run_id token now expires_at none table = (none, table)
take_chosen run_id token now expires_at (some chosen) table =
    let takeable = is_takeable run_id chosen.item_key now in
    let table' = update_where takeable (take_claim token now expires_at) table in
    (
      if nat_eq (count_where takeable table) 1
          then find_where (is_item run_id chosen.item_key) table'
          else none,
      table',
    )

abbrev pub claim_chosen :
    String
    → String
    → ℕ
    → ℕ
    → Db
    → Result (Option RefreshWorkItemRecord × List RefreshWorkItemRecord)
    → Result (Option RefreshWorkItemRecord × Db)
claim_chosen run_id token now expires_at db (err e) = err e
claim_chosen run_id token now expires_at db (ok (chosen, table)) =
    let (claimed, table') = take_chosen run_id token now expires_at chosen table in
    ok (claimed, record db { items = table' })

unfoldable pub claim_v6_item :
    String → Option String → String → ℕ → ℕ → Db → Result (Option RefreshWorkItemRecord × Db)
claim_v6_item run_id expected token now expires_at db =
    let rows = order_by task_order_of (select_where (in_run run_id) db.items) in
    claim_chosen run_id token now expires_at db
      (choose_from db.backend db.access now run_id expected rows rows db.items)
