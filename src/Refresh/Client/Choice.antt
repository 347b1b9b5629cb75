-- ===== src/Refresh/Client/Choice.antt =====
-- `_next_item`, `_next_due`, `_active_claim` and the results of backend/refresh_run_client.py.
use x_bray.Base.{
  ℕ, String, Bool, true, false, Option, none, some, List, [], ◌∷◌, ◌++◌, ◌==◌, ◌&&◌, ◌||◌, not, leb,
  ltb, select_where, map, if◌then◌else◌,
}
use x_bray.Refresh.Models.{
  RawTimestamp, aware, naive, malformed, RefreshRunState, RefreshWorkItemStatus,
  max_work_item_attempts,
}
use x_bray.Refresh.RetryPolicy.{failed_item_is_retryable, failed_work_item_is_retryable}
use x_bray.Refresh.Client.{
  RefreshStatus, FinalTask, FinalResult, FinalText, parsed, unreadable, WorkItem, Snapshot,
  client_error, crash, Answer, fails, gives, current_manifest_version,
}

abbrev pub is_preferred : String → WorkItem → Bool
is_preferred key item = item.item_key == key

-- The stable sort by `item.item_key != preferred_key`.
unfoldable pub preferred_first : Option String → List WorkItem → List WorkItem
preferred_first none items = items
preferred_first (some key) items =
    select_where (is_preferred key) items
    ++ select_where (λ item. not (is_preferred key item)) items

-- `retry_at > now`, where the text is an instant.
abbrev pub is_later : Option RawTimestamp → ℕ → Answer Bool
is_later none now = gives false
is_later (some (aware instant)) now = gives (ltb now instant)
is_later (some naive) now = fails crash
is_later (some malformed) now = fails crash

abbrev pub is_open_status : RefreshWorkItemStatus → Bool
is_open_status RefreshWorkItemStatus.pending = true
is_open_status RefreshWorkItemStatus.claimed = true
is_open_status other = false

abbrev pub is_failed_status : RefreshWorkItemStatus → Bool
is_failed_status RefreshWorkItemStatus.failed = true
is_failed_status other = false

-- `item.last_error_category or item.error_category`
abbrev pub first_text : Option String → Option String → Option String
first_text none other = other
first_text (some text) other = if text == "" then other else some text

-- Without a task the category decides, as it does for a task of a source.
abbrev pub task_is_retryable : Option String → WorkItem → Bool
task_is_retryable none item =
    failed_item_is_retryable (first_text item.last_error_category item.error_category)
      item.acquisition_attempts max_work_item_attempts
task_is_retryable (some task) item =
    failed_work_item_is_retryable task (first_text item.last_error_category item.error_category)
      item.acquisition_attempts item.attempt max_work_item_attempts

abbrev pub may_retry : String → WorkItem → Bool
may_retry manifest_version item =
    is_failed_status item.status
    && (if not (manifest_version == current_manifest_version)
        then ltb item.attempt max_work_item_attempts
        else task_is_retryable item.task item)

abbrev pub is_exhausted : WorkItem → Bool
is_exhausted item = leb max_work_item_attempts item.acquisition_attempts

abbrev pub consider_due :
    Answer Bool → String → WorkItem → Answer (Option WorkItem) → Answer (Option WorkItem)
consider_due (fails error) manifest_version item rest = fails error
consider_due (gives true) manifest_version item rest = rest
consider_due (gives false) manifest_version item rest =
    if is_open_status item.status || may_retry manifest_version item
    then gives (some item)
    else rest

unfoldable pub first_item : String → ℕ → List WorkItem → Answer (Option WorkItem)
unfolding failed_item_is_retryable failed_work_item_is_retryable
first_item manifest_version now [] = gives none
first_item manifest_version now (item ∷ items) =
    let rest = first_item manifest_version now items in
    if is_exhausted item
    then rest
    else consider_due (is_later item.next_attempt_at now) manifest_version item rest

unfoldable pub next_item : ℕ → Snapshot → Answer (Option WorkItem)
unfolding first_item preferred_first
next_item now snapshot =
    first_item snapshot.run.manifest_version now
      (preferred_first snapshot.run.due_work_item_key snapshot.items)

abbrev pub due_of : Option RawTimestamp → Answer (Option ℕ)
due_of none = gives none
due_of (some (aware instant)) = gives (some instant)
due_of (some naive) =
    fails (client_error "refresh run returned a timezone-naive next eligibility timestamp")
due_of (some malformed) =
    fails (client_error "refresh run returned an invalid next eligibility timestamp")

abbrev pub next_due : Snapshot → Answer (Option ℕ)
next_due snapshot = due_of snapshot.run.next_due_at

abbrev pub is_claimed_status : RefreshWorkItemStatus → Bool
is_claimed_status RefreshWorkItemStatus.claimed = true
is_claimed_status other = false

unfoldable pub active_claim : ℕ → WorkItem → Answer Bool
active_claim now item =
    if not (is_claimed_status item.status) then gives false else is_later item.claim_expires_at now

abbrev pub is_terminal : RefreshRunState → Bool
is_terminal RefreshRunState.running = false
is_terminal other = true

abbrev pub read_result : Option FinalText → Answer FinalResult
read_result none = fails (client_error "terminal refresh run has no final result")
read_result (some unreadable) =
    fails (client_error "terminal refresh run has an invalid final result")
read_result (some (parsed result)) = gives result

-- A text that counts in Python's sense: neither None nor empty.
abbrev pub truthy : Option String → Option String
truthy none = none
truthy (some text) = if text == "" then none else some text

abbrev pub client_task : FinalTask → FinalTask
client_task task = record task {
  acquisition_status = truthy task.acquisition_status;
  retry_not_before = truthy task.retry_not_before;
  deferral_reason = truthy task.deferral_reason;
  error_category = truthy task.error_category;
  last_error_code = truthy task.last_error_code;
}

abbrev pub successful : RefreshStatus → FinalResult → Answer FinalResult
successful RefreshStatus.error result =
    fails (client_error "refresh run completed with no successful work items")
successful other result = gives (record result { tasks = map client_task result.tasks })

abbrev pub successful_of : Answer FinalResult → Answer FinalResult
successful_of (fails error) = fails error
successful_of (gives result) = successful result.status result

-- RefreshRunClientResult, less its latency.
unfoldable pub client_result : Snapshot → Answer FinalResult
client_result snapshot = successful_of (read_result snapshot.run.final_result)
