-- ===== src/Refresh/Attempts.antt =====
-- The lifecycle of an attempt at a work item: backend/db/refresh_attempt.py, the functions that it
-- calls in backend/db/store.py, and the tables of migrations 018 and 019.
pub mod Acquisition
pub mod Histories
pub mod Reconciliation
pub mod Scenarios
use x_bray.Base.{
  ℕ, suc, ◌+◌, String, Bool, true, false, Option, none, some, List, [], ◌∷◌, ◌++◌, ◌==◌, ◌&&◌, ◌||◌,
  not, leb, nat_eq, is_none, is_after, is_due, count_where, update_where, select_where, find_where,
  any_where, if◌then◌else◌,
}
use x_bray.Refresh.Models.{
  RefreshWorkItemStatus, RefreshWorkItemRecord, RefreshRunRecord, RefreshRunState, Lease,
}

-- `RefreshAttemptContext`
pub record AttemptContext : Type 0 where
  pub attempt_id : String
  pub run_id : String
  pub item_key : String
  pub attempt_number : ℕ
  pub generation : ℕ
  pub claim_token : String
  pub expires_at : ℕ

pub record AttemptRow : Type 0 where
  pub attempt_id : String
  pub run_id : String
  pub item_key : String
  pub attempt_number : ℕ
  pub claim_generation : ℕ
  pub claim_token : String
  pub claim_expires_at : ℕ
  pub started_at : ℕ
  pub last_stage : String
  pub terminal_outcome : Option String
  pub terminal_at : Option ℕ
  pub last_error_code : Option String
  pub committed_count : Option ℕ
  pub source_data_date : Option String
  pub outbound_started_at : Option ℕ

pub record MilestoneRow : Type 0 where
  pub attempt_id : String
  pub stage : String
  pub observed_at : ℕ
  pub outcome : String
  pub detail_code : Option String

pub record ReconciliationRow : Type 0 where
  pub attempt_id : String
  pub observed_at : ℕ
  pub outcome : String
  pub committed_count : Option ℕ
  pub source_data_date : Option String
  pub evidence : String

-- The tables that the functions use; `postgres` enforces the references of milestones to attempts.
pub record AttemptDb : Type 0 where
  pub postgres : Bool
  pub items : List RefreshWorkItemRecord
  pub attempts : List AttemptRow
  pub milestones : List MilestoneRow
  pub reconciliations : List ReconciliationRow

-- An exception leaves the tables as they were: RuntimeError, or a broken constraint.
pub data AttemptResult {ℓ} (A : Type ℓ) : Type ℓ where
  runtime_error : String → AttemptResult A
  constraint_error : AttemptResult A
  succeeded : A → AttemptResult A

abbrev pub is_attempt : String → AttemptRow → Bool
is_attempt attempt_id row = row.attempt_id == attempt_id

abbrev pub is_attempt_of : AttemptContext → AttemptRow → Bool
is_attempt_of context row =
    row.attempt_id == context.attempt_id
    || (row.run_id == context.run_id
        && row.item_key == context.item_key
        && nat_eq row.attempt_number context.attempt_number)

abbrev pub started_attempt : AttemptContext → ℕ → AttemptRow
started_attempt context now = record {
  attempt_id = context.attempt_id;
  run_id = context.run_id;
  item_key = context.item_key;
  attempt_number = context.attempt_number;
  claim_generation = context.generation;
  claim_token = context.claim_token;
  claim_expires_at = context.expires_at;
  started_at = now;
  last_stage = "claimed";
  terminal_outcome = none;
  terminal_at = none;
  last_error_code = none;
  committed_count = none;
  source_data_date = none;
  outbound_started_at = none;
}

abbrev pub milestone : String → String → ℕ → String → Option String → MilestoneRow
milestone attempt_id stage observed_at outcome detail_code = record {
  attempt_id = attempt_id;
  stage = stage;
  observed_at = observed_at;
  outcome = outcome;
  detail_code = detail_code;
}

-- The CHECK constraints want positive numbers.
abbrev pub breaks_constraint : AttemptContext → AttemptDb → Bool
breaks_constraint context db =
    any_where (is_attempt_of context) db.attempts
    || nat_eq context.attempt_number 0
    || nat_eq context.generation 0

unfoldable pub record_refresh_attempt_started :
    AttemptContext → ℕ → AttemptDb → AttemptResult AttemptDb
record_refresh_attempt_started context now db =
    if breaks_constraint context db
    then constraint_error
    else succeeded (record db {
      attempts = db.attempts ++ started_attempt context now ∷ [];
      milestones = db.milestones ++ milestone context.attempt_id "claimed" now "observed" none ∷ [];
    })

abbrev pub is_text_of : Option String → String → Bool
is_text_of none text = false
is_text_of (some other) text = other == text

abbrev pub is_item_claimed : RefreshWorkItemStatus → Bool
is_item_claimed RefreshWorkItemStatus.claimed = true
is_item_claimed other = false

abbrev pub is_running_attempt : String → AttemptRow → Bool
is_running_attempt attempt_id row = row.attempt_id == attempt_id && is_none row.terminal_at

abbrev pub staged : String → String → Option String → AttemptRow → AttemptRow
staged stage outcome detail_code row = record row {
  last_stage = stage;
  last_error_code = if not (outcome == "observed") then detail_code else row.last_error_code;
}

-- PostgreSQL refuses a milestone of an attempt that is not there; SQLite does not check.
unfoldable pub record_refresh_attempt_milestone :
    String → String → String → Option String → ℕ → AttemptDb → AttemptResult AttemptDb
record_refresh_attempt_milestone attempt_id stage outcome detail_code now db =
    if db.postgres && not (any_where (is_attempt attempt_id) db.attempts)
    then constraint_error
    else succeeded (record db {
      attempts =
          update_where (is_running_attempt attempt_id) (staged stage outcome detail_code)
            db.attempts;
      milestones = db.milestones ++ milestone attempt_id stage now outcome detail_code ∷ [];
    })

-- `current_refresh_attempt()` is the context installed, if any.
unfoldable pub record_refresh_attempt_stage :
    Option AttemptContext
    → String
    → String
    → Option String
    → ℕ
    → AttemptDb
    → AttemptResult AttemptDb
unfolding record_refresh_attempt_milestone
record_refresh_attempt_stage none stage outcome detail_code now db = succeeded db
record_refresh_attempt_stage (some context) stage outcome detail_code now db =
    record_refresh_attempt_milestone context.attempt_id stage outcome detail_code now db

abbrev pub finished_attempt :
    String → Option String → Option ℕ → Option String → ℕ → AttemptRow → AttemptRow
finished_attempt outcome error_code committed_count source_data_date now row = record row {
  terminal_outcome = some outcome;
  terminal_at = some now;
  last_error_code = error_code;
  committed_count = committed_count;
  source_data_date = source_data_date;
}

unfoldable pub finish_refresh_attempt :
    String → String → Option String → Option ℕ → Option String → ℕ → AttemptDb → AttemptDb
finish_refresh_attempt attempt_id outcome error_code committed_count source_data_date now db =
    record db {
      attempts =
          update_where (is_running_attempt attempt_id)
            (finished_attempt outcome error_code committed_count source_data_date now) db.attempts;
    }
