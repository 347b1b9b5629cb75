-- ===== src/Refresh/Models.antt =====
-- backend/db/refresh_run_models.py: the records of a refresh run, and the tables that hold them.
-- Identifiers are texts. A stored timestamp is the output of `utc_iso`, a UTC ISO text whose
-- order as text is the order in time: it stands here as its number of microseconds.
use x_bray.Base.{ℕ, String, Bool, true, false, Option, none, List, []}

pub data RefreshRunState : Type 0 where
  running succeeded partial failed : RefreshRunState

pub data RefreshRunFinalState : Type 0 where
  succeeded partial failed : RefreshRunFinalState

pub data RefreshRunCutoffPhase : Type 0 where
  derived macro_score : RefreshRunCutoffPhase

pub data RefreshWorkItemStatus : Type 0 where
  pending claimed succeeded partial failed skipped : RefreshWorkItemStatus

pub data RefreshWorkItemOutcome : Type 0 where
  succeeded partial failed skipped : RefreshWorkItemOutcome

-- `outcome.value` and `final_state.value`, stored in the columns of the wider enumerations.
abbrev pub outcome_status : RefreshWorkItemOutcome → RefreshWorkItemStatus
outcome_status RefreshWorkItemOutcome.succeeded = RefreshWorkItemStatus.succeeded
outcome_status RefreshWorkItemOutcome.partial = RefreshWorkItemStatus.partial
outcome_status RefreshWorkItemOutcome.failed = RefreshWorkItemStatus.failed
outcome_status RefreshWorkItemOutcome.skipped = RefreshWorkItemStatus.skipped

abbrev pub final_run_state : RefreshRunFinalState → RefreshRunState
final_run_state RefreshRunFinalState.succeeded = RefreshRunState.succeeded
final_run_state RefreshRunFinalState.partial = RefreshRunState.partial
final_run_state RefreshRunFinalState.failed = RefreshRunState.failed

abbrev pub is_running : RefreshRunState → Bool
is_running RefreshRunState.running = true
is_running _ = false

abbrev pub is_pending : RefreshWorkItemStatus → Bool
is_pending RefreshWorkItemStatus.pending = true
is_pending _ = false

abbrev pub is_claimed : RefreshWorkItemStatus → Bool
is_claimed RefreshWorkItemStatus.claimed = true
is_claimed _ = false

abbrev pub is_failed : RefreshWorkItemStatus → Bool
is_failed RefreshWorkItemStatus.failed = true
is_failed _ = false

abbrev pub is_succeeded : RefreshWorkItemStatus → Bool
is_succeeded RefreshWorkItemStatus.succeeded = true
is_succeeded _ = false

abbrev pub max_work_item_attempts : ℕ
max_work_item_attempts = 2

-- A timestamp text handed to `utc_iso`, by what `datetime.fromisoformat` makes of it.
pub data RawTimestamp : Type 0 where
  aware : ℕ → RawTimestamp
  naive : RawTimestamp
  malformed : RawTimestamp

pub record RefreshWorkItemSpec : Type 0 where
  pub item_key : String
  pub task : String
  pub task_order : ℕ

-- `sgs_plan` stands as its digest, which is all that the run's transactions compare and store.
pub record RefreshRunStart : Type 0 where
  pub run_id : String
  pub cycle_id : String
  pub force : Bool
  pub manifest_version : String
  pub derived_cutoff : Option RawTimestamp
  pub macro_cutoff : Option RawTimestamp
  pub items : List RefreshWorkItemSpec
  pub now : RawTimestamp
  pub lease_expires_at : RawTimestamp
  pub sgs_plan : Option String

pub data TaskStatus : Type 0 where
  ok partial error skipped : TaskStatus

-- One entry of the final report; the fields after `error_code` are set as in the source.
pub record TaskResult : Type 0 where
  pub name : String
  pub status : TaskStatus
  pub error_code : Option String
  pub error_category : Option String
  pub last_error_code : Option String
  pub retry_not_before : Option ℕ
  pub deferral_reason : Option String

-- The JSON documents that the code stores in `final_result`, before they are printed.
pub data FinalResult : Type 0 where
  lease_expired : FinalResult
  report : TaskStatus → List TaskResult → FinalResult

pub record RefreshRunRecord : Type 0 where
  pub run_id : String
  pub cycle_id : String
  pub state : RefreshRunState
  pub force : Bool
  pub manifest_version : String
  pub derived_cutoff : Option ℕ
  pub macro_cutoff : Option ℕ
  pub created_at : ℕ
  pub updated_at : ℕ
  pub finished_at : Option ℕ
  pub final_result : Option FinalResult

pub record RefreshWorkItemRecord : Type 0 where
  pub run_id : String
  pub item_key : String
  pub task : String
  pub task_order : ℕ
  pub status : RefreshWorkItemStatus
  pub attempt : ℕ
  pub claim_token : Option String
  pub claim_expires_at : Option ℕ
  pub claimed_at : Option ℕ
  pub created_at : ℕ
  pub updated_at : ℕ
  pub finished_at : Option ℕ
  pub series_updated : ℕ
  pub record_count : ℕ
  pub error_code : Option String
  pub claim_generation : ℕ
  pub acquisition_attempts : ℕ
  pub next_attempt_at : Option ℕ
  pub deferral_reason : Option String
  pub last_error_category : Option String
  pub last_error_code : Option String

pub record RefreshRunSnapshot : Type 0 where
  pub run : RefreshRunRecord
  pub items : List RefreshWorkItemRecord
  pub lease_expires_at : Option ℕ

pub record RefreshWorkItemClaimRequest : Type 0 where
  pub run_id : String
  pub now : RawTimestamp
  pub claim_expires_at : RawTimestamp
  pub expected_item_key : Option String

pub record RefreshWorkItemCompletion : Type 0 where
  pub run_id : String
  pub item_key : String
  pub claim_token : String
  pub status : RefreshWorkItemOutcome
  pub finished_at : RawTimestamp
  pub series_updated : ℕ
  pub record_count : ℕ
  pub error_code : Option String
  pub error_category : Option String

pub record RefreshWorkItemDeferral : Type 0 where
  pub run_id : String
  pub item_key : String
  pub claim_token : String
  pub next_attempt_at : RawTimestamp
  pub reason : String
  pub now : RawTimestamp
  pub error_category : Option String
  pub error_code : Option String

pub record RefreshRunFinalization : Type 0 where
  pub run_id : String
  pub state : RefreshRunFinalState
  pub final_result : FinalResult
  pub finished_at : RawTimestamp
  pub last_successful_update : Option RawTimestamp

pub record RefreshRunCutoffUpdate : Type 0 where
  pub run_id : String
  pub phase : RefreshRunCutoffPhase
  pub cutoff : RawTimestamp
  pub now : RawTimestamp
  pub lease_expires_at : RawTimestamp

-- The row of `refresh_leases` whose key is `daily_refresh`.
pub record Lease : Type 0 where
  pub owner : String
  pub expires_at : ℕ

-- The columns of `refresh_task_status` that a run's transactions write.
pub record TaskStatusRow : Type 0 where
  pub task : String
  pub status : String
  pub finished_at : Option ℕ
  pub error : Option String

pub data CircuitState : Type 0 where
  closed open_ half_open : CircuitState

-- A row of `source_access_state`.
pub record AccessRow : Type 0 where
  pub scope_id : String
  pub consecutive_temporary_failures : ℕ
  pub state : CircuitState
  pub opened_until : Option ℕ
  pub retry_not_before : Option ℕ
  pub probe_lease_until : Option ℕ
  pub updated_at : ℕ
  pub admission_generation : ℕ

pub data Backend : Type 0 where
  sqlite postgres : Backend

pub record PlanRow : Type 0 where
  pub run_id : String
  pub plan_sha256 : String

-- The tables that the transactions of this component read and write.
pub record Db : Type 0 where
  pub backend : Backend
  pub runs : List RefreshRunRecord
  pub items : List RefreshWorkItemRecord
  pub lease : Option Lease
  pub task_status : List TaskStatusRow
  pub access : List AccessRow
  pub plans : List PlanRow
  pub last_successful_update : Option ℕ

-- The schema after the migrations, before any run.
abbrev pub empty_db : Backend → Db
empty_db backend = record {
  backend = backend;
  runs = [];
  items = [];
  lease = none;
  task_status = [];
  access = [];
  plans = [];
  last_successful_update = none;
}
