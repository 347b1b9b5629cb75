-- ===== src/Refresh/Execution/Driver.antt =====
-- `_finalize_if_resolved` and `advance_refresh_run` of backend/refresh_run_execution.py.
use x_bray.Base.{
  ℕ, ◌+◌, String, Bool, true, false, Option, none, some, ◌==◌, ◌&&◌, ◌||◌, not, leb, is_none,
  find_where, if◌then◌else◌,
}
use x_bray.Refresh.Models.{
  RefreshWorkItemStatus, RawTimestamp, aware, RefreshRunSnapshot, RefreshWorkItemRecord,
  RefreshWorkItemClaimRequest, RefreshWorkItemCompletion, RefreshWorkItemDeferral, Db, is_running,
  max_work_item_attempts,
}
use x_bray.Refresh.Transaction.{not_found, Result, ok, err, ◌>>=◌}
use x_bray.Refresh.RetryPolicy.{failed_work_item_is_resolved}
use x_bray.Refresh.Scheduler.{text, AccessState, state_of_scope, source_scope_for_task}
use x_bray.Refresh.Items.Claim.{claim_next_work_item}
use x_bray.Refresh.Items.Settle.{complete_work_item_claim, defer_work_item_claim}
use x_bray.Refresh.Finalize.{finalize_and_release_run}
use x_bray.Refresh.Execution.Resume.{claim_duration, get_refresh_run, resume_refresh_run}
use x_bray.Refresh.Execution.Outcome.{
  TaskExecution, has_code, completion, final_state, final_result, finalization_of,
}

-- Both outcomes of the finalization read the run again.
abbrev pub finalize_resumed : Result RefreshRunSnapshot × Db → ℕ → Result RefreshRunSnapshot × Db
finalize_resumed (err e, db) now = (err e, db)
finalize_resumed (ok snapshot, db) now =
    if not (is_running snapshot.run.state)
    then (ok snapshot, db)
    else let (finalized, db') = finalize_and_release_run (finalization_of snapshot now) db in
      (finalized >>= λ _. get_refresh_run snapshot.run.run_id db', db')

unfoldable pub finalize_if_resolved : RefreshRunSnapshot → ℕ → Db → Result RefreshRunSnapshot × Db
unfolding resume_refresh_run get_refresh_run final_state final_result finalize_and_release_run
finalize_if_resolved snapshot now db =
    if not (is_running snapshot.run.state)
    then (ok snapshot, db)
    else finalize_resumed (resume_refresh_run snapshot now db) now

abbrev pub is_v6 : String → Bool
is_v6 version = version == "daily-refresh-v6"

-- The `match expected.status` of `advance_refresh_run`.
unfoldable pub is_resolved_item : String → RefreshWorkItemRecord → Bool
is_resolved_item version item = elim item.status [
  | RefreshWorkItemStatus.succeeded ↦ true
  | RefreshWorkItemStatus.partial ↦ true
  | RefreshWorkItemStatus.failed ↦
      if not (is_v6 version)
      then leb max_work_item_attempts item.attempt
      else failed_work_item_is_resolved item.task item.last_error_category item.acquisition_attempts
          item.attempt max_work_item_attempts
  | RefreshWorkItemStatus.skipped ↦ true
  | RefreshWorkItemStatus.pending ↦ false
  | RefreshWorkItemStatus.claimed ↦ false
]

-- What the first half of `advance_refresh_run` comes to: it returns, or it executes a claim.
pub data Step : Type 0 where
  returned : RefreshRunSnapshot → Step
  claimed : RefreshRunSnapshot → RefreshWorkItemRecord → Step

abbrev returned_step : Result RefreshRunSnapshot × Db → Result Step × Db
returned_step (r, db) = (r >>= λ snapshot. ok (returned snapshot), db)

abbrev pub advance_request : String → String → ℕ → RefreshWorkItemClaimRequest
advance_request run_id expected now = record {
  run_id = run_id;
  now = aware now;
  claim_expires_at = aware (now + claim_duration);
  expected_item_key = some expected;
}

abbrev claimed_step :
    String → RefreshRunSnapshot → Result (Option RefreshWorkItemRecord) × Db → Result Step × Db
claimed_step run_id snapshot (err e, db) = (err e, db)
claimed_step run_id snapshot (ok none, db) = returned_step (get_refresh_run run_id db, db)
claimed_step run_id snapshot (ok (some claim), db) = (ok (claimed snapshot claim), db)

abbrev pub advance_item :
    Option RefreshWorkItemRecord
    → String
    → String
    → String
    → ℕ
    → RefreshRunSnapshot
    → Db
    → Result Step × Db
advance_item none run_id expected token now snapshot db = (err (not_found run_id), db)
advance_item (some item) run_id expected token now snapshot db =
    if is_resolved_item snapshot.run.manifest_version item
    then returned_step (finalize_if_resolved snapshot now db)
    else claimed_step run_id snapshot
        (claim_next_work_item (advance_request run_id expected now) token db)

abbrev is_key : String → RefreshWorkItemRecord → Bool
is_key key item = item.item_key == key

abbrev advance_resumed :
    Result RefreshRunSnapshot × Db → String → String → String → ℕ → Result Step × Db
advance_resumed (err e, db) run_id expected token now = (err e, db)
advance_resumed (ok snapshot, db) run_id expected token now =
    if not (is_running snapshot.run.state)
    then (ok (returned snapshot), db)
    else advance_item (find_where (is_key expected) snapshot.items) run_id expected token now
        snapshot db

abbrev advance_found :
    Result RefreshRunSnapshot → String → String → String → ℕ → Db → Result Step × Db
advance_found (err e) run_id expected token now db = (err e, db)
advance_found (ok snapshot) run_id expected token now db =
    advance_resumed (resume_refresh_run snapshot now db) run_id expected token now

-- `advance_refresh_run`, up to the claim. `token` is the `uuid4` that the claim draws.
unfoldable pub advance_refresh_run : String → String → String → ℕ → Db → Result Step × Db
unfolding get_refresh_run resume_refresh_run finalize_if_resolved claim_next_work_item
    is_resolved_item
advance_refresh_run run_id expected token now db =
    advance_found (get_refresh_run run_id db) run_id expected token now db

-- The error and the retry time of an execution; a spent budget takes the time of the provider's
-- circuit, where the driver hands it over as a text.
abbrev circuit_retry : Option AccessState → Option RawTimestamp
circuit_retry none = none
circuit_retry (some state) = elim state.retry_not_before [ text t ↦ some (aware t) | _ ↦ none ]

unfoldable pub retry_of_execution :
    RefreshWorkItemRecord → TaskExecution → Db → Option String × Option RawTimestamp
retry_of_execution claim execution db =
    let candidate =
      circuit_retry (state_of_scope db.backend db.access (source_scope_for_task claim.task)) in
    if has_code "RetryBudgetExceeded" execution.error_code
      && is_none execution.retry_not_before
      && not (is_none candidate)
    then (some "RetryDeferred", candidate)
    else (execution.error_code, execution.retry_not_before)

abbrev pub deferral :
    String
    → RefreshWorkItemRecord
    → String
    → TaskExecution
    → Bool
    → RawTimestamp
    → ℕ
    → RefreshWorkItemDeferral
deferral run_id claim token execution circuit_open retry_at now = record {
  run_id = run_id;
  item_key = claim.item_key;
  claim_token = token;
  next_attempt_at = retry_at;
  reason = if circuit_open then "publisher_cooldown" else "retry_after";
  now = aware now;
  error_category = execution.error_category;
  error_code = execution.error_code;
}

-- An exception of the deferral ends the function.
abbrev after_deferral : String → Result Bool × Db → Result RefreshRunSnapshot × Db
after_deferral run_id (r, db) = (r >>= λ _. get_refresh_run run_id db, db)

abbrev after_completion : String → ℕ → Result Bool × Db → Result RefreshRunSnapshot × Db
after_completion run_id now (err e, db) = (err e, db)
after_completion run_id now (ok false, db) = (get_refresh_run run_id db, db)
after_completion run_id now (ok true, db) = elim (get_refresh_run run_id db) [
  | err e ↦ (err e, db)
  | ok updated ↦ finalize_if_resolved updated now db
]

abbrev complete_execution :
    String → Result RefreshWorkItemCompletion → ℕ → Db → Result RefreshRunSnapshot × Db
complete_execution run_id (err e) now db = (err e, db)
complete_execution run_id (ok completion) now db =
    after_completion run_id now (complete_work_item_claim completion db)

-- `advance_refresh_run`, after the execution: `now` and `later` are its two clock readings, `token`
-- is the claim's token.
unfoldable pub settle_execution :
    String
    → RefreshRunSnapshot
    → RefreshWorkItemRecord
    → String
    → TaskExecution
    → ℕ
    → ℕ
    → Db
    → Result RefreshRunSnapshot × Db
unfolding retry_of_execution defer_work_item_claim complete_work_item_claim completion
    finalize_if_resolved get_refresh_run
settle_execution run_id snapshot claim token execution now later db =
    let (error_code, retry) = retry_of_execution claim execution db in
    let circuit_open = has_code "CircuitOpen" error_code in
    let deferred = circuit_open || has_code "RetryDeferred" error_code in
    elim retry [
      | none ↦ complete_execution run_id (completion snapshot claim execution now) later db
      | some retry_at ↦
          if deferred
          then after_deferral run_id (
              defer_work_item_claim
                (deferral run_id claim token execution circuit_open retry_at now) db)
          else complete_execution run_id (completion snapshot claim execution now) later db
    ]
