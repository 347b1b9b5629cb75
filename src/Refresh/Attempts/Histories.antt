-- ===== src/Refresh/Attempts/Histories.antt =====
-- Histories of calls of the functions on attempts, each at its instant.
pub mod Counting
pub mod Finality
use x_bray.Base.{
  ℕ, suc, ◌+◌, String, Bool, true, false, Option, none, some, List, [], ◌∷◌, ◌++◌, ◌≡◌, refl, sym,
  ◌∙◌, ap, arith, ◌==◌, ◌&&◌, ◌||◌, not, nat_eq, eq_iff, is_none, is_after, count_where,
  update_where, select_where, find_where, any_where, find_where-append, find_where-holds,
  find_where-update, any_where-append, any_where-update, any_where-cleared, Bool-cases, inl, inr,
  if◌then◌else◌,
}
use mathlib.Core.Option
use x_bray.Refresh.Models.{RefreshWorkItemRecord}
use x_bray.Refresh.Attempts.{
  AttemptContext, AttemptRow, AttemptDb, AttemptResult, runtime_error, constraint_error, succeeded,
  is_attempt, is_attempt_of, started_attempt, is_running_attempt, staged, finished_attempt,
  breaks_constraint, record_refresh_attempt_started, record_refresh_attempt_milestone,
  finish_refresh_attempt,
}
use x_bray.Refresh.Attempts.Acquisition.{
  is_unstarted, outbound_started, is_claimed_item, mark_first, mark_again, not_current,
  mark_refresh_acquisition_started,
}
use x_bray.Refresh.Attempts.Reconciliation.{
  Receipt, reconciled_attempt, reconcile_one, reconcile_candidates,
  reconcile_expired_refresh_attempts, is_candidate, receipt_outcome, is_reconciliation,
  insert_reconciliation, counted,
}

pub data AttemptCommand : Type 0 where
  starts : AttemptContext → AttemptCommand
  marks : AttemptContext → AttemptCommand
  stages : String → String → String → Option String → AttemptCommand
  finishes : String → String → Option String → Option ℕ → Option String → AttemptCommand
  reconciles : (String → Option Receipt) → String → AttemptCommand

-- What the call leaves behind; a call that raised has changed nothing.
abbrev pub after : AttemptDb → AttemptResult AttemptDb → AttemptDb
after db (runtime_error text) = db
after db constraint_error = db
after db (succeeded db') = db'

unfoldable pub step : ℕ → AttemptCommand → AttemptDb → AttemptDb
unfolding record_refresh_attempt_started mark_refresh_acquisition_started
    record_refresh_attempt_milestone finish_refresh_attempt reconcile_expired_refresh_attempts
step now (starts context) db = after db (record_refresh_attempt_started context now db)
step now (marks context) db = after db (mark_refresh_acquisition_started context now db)
step now (stages attempt_id stage outcome detail_code) db =
    after db (record_refresh_attempt_milestone attempt_id stage outcome detail_code now db)
step now (finishes attempt_id outcome error_code committed_count source_data_date) db =
    finish_refresh_attempt attempt_id outcome error_code committed_count source_data_date now db
step now (reconciles receipt_of run_id) db =
    (reconcile_expired_refresh_attempts receipt_of run_id now db).1

unfoldable pub run : List (ℕ × AttemptCommand) → AttemptDb → AttemptDb
unfolding step
run [] db = db
run ((now, command) ∷ rest) db = run rest (step now command db)

-- A rule for every call, over a property of the attempts: it is enough to look at the insertion of a
-- new attempt and at the three updates.
module _ {ℓ} (P : List AttemptRow → Type ℓ)
    (keeps_start : (context : AttemptContext) (now : ℕ) (rows : List AttemptRow)
      → any_where (is_attempt_of context) rows ≡ false
      → P rows
      → P (rows ++ started_attempt context now ∷ []))
    (keeps_mark : (context : AttemptContext) (now : ℕ) (rows : List AttemptRow)
      → P rows
      → P (update_where (is_unstarted context) (outbound_started now) rows))
    (keeps_stage : (attempt_id stage outcome : String) (detail_code : Option String)
        (rows : List AttemptRow)
      → P rows
      → P (update_where (is_running_attempt attempt_id) (staged stage outcome detail_code) rows))
    (keeps_finish : (attempt_id outcome : String) (error_code : Option String)
        (committed_count : Option ℕ) (source_data_date : Option String) (now : ℕ)
        (rows : List AttemptRow)
      → P rows
      → P (
          update_where
            (is_running_attempt attempt_id)
            (finished_attempt outcome error_code committed_count source_data_date now)
            rows))
    (keeps_reconcile : (attempt_id : String) (receipt : Option Receipt) (now : ℕ)
        (rows : List AttemptRow)
      → P rows
      → P (
          update_where (is_running_attempt attempt_id) (reconciled_attempt receipt now) rows)) where
  reconciled_one :
      (attempt_id : String) (receipt : Option Receipt) (now : ℕ) (db : AttemptDb)
      → P db.attempts
      → P (reconcile_one attempt_id receipt now db).1.attempts
  unfolding reconcile_one
  reconciled_one attempt_id receipt now db p =
      elim (Bool-cases
        (any_where (is_reconciliation attempt_id (receipt_outcome receipt)) db.reconciliations)) [
          | inl e ↦ rw e p
          | inr e ↦ rw e (keeps_reconcile attempt_id receipt now db.attempts p)
        ]

  counted_db :
      (inserted : Bool) (result : ℕ × AttemptDb)
      → P result.1.attempts
      → P (counted inserted result).1.attempts
  counted_db true (count, db) p = p
  counted_db false (count, db) p = p

  reconciled_all :
      (receipt_of : String → Option Receipt) (now : ℕ) (rows : List AttemptRow) (db : AttemptDb)
      → P db.attempts
      → P (reconcile_candidates receipt_of now rows db).1.attempts
  unfolding reconcile_candidates
  reconciled_all receipt_of now [] db p = p
  reconciled_all receipt_of now (row ∷ rows) db p =
      let one = reconcile_one row.attempt_id (receipt_of row.attempt_id) now db in
      counted_db one.0 (reconcile_candidates receipt_of now rows one.1) (
        reconciled_all receipt_of now rows one.1
          (reconciled_one row.attempt_id (receipt_of row.attempt_id) now db p))

  mark_first_keeps :
      (context : AttemptContext) (now : ℕ) (db : AttemptDb)
      → P db.attempts
      → P (after db (mark_first context now db)).attempts
  mark_first_keeps context now db p =
      elim (Bool-cases (nat_eq (count_where (is_claimed_item context now) db.items) 1)) [
        | inl e ↦ rw e (keeps_mark context now db.attempts p)
        | inr e ↦ rw e p
      ]

  pub step_attempts :
      (now : ℕ) (command : AttemptCommand) (db : AttemptDb)
      → P db.attempts
      → P (step now command db).attempts
  unfolding step record_refresh_attempt_started mark_refresh_acquisition_started
      record_refresh_attempt_milestone finish_refresh_attempt reconcile_expired_refresh_attempts
  step_attempts now (starts context) db p =
      elim (Bool-cases (any_where (is_attempt_of context) db.attempts)) [
        | inl e ↦ rw e p
        | inr e ↦ ground (arith, keeps_start context now db.attempts e p)
      ]
  step_attempts now (marks context) db p = ground (arith, mark_first_keeps context now db p)
  step_attempts now (stages attempt_id stage outcome detail_code) db p =
      ground (arith, keeps_stage attempt_id stage outcome detail_code db.attempts p)
  step_attempts now (finishes attempt_id outcome error_code committed_count source_data_date) db p =
      keeps_finish attempt_id outcome error_code committed_count source_data_date now db.attempts p
  step_attempts now (reconciles receipt_of run_id) db p =
      reconciled_all receipt_of now (select_where (is_candidate run_id now db.items) db.attempts) db
        p

  pub run_attempts :
      (history : List (ℕ × AttemptCommand)) (db : AttemptDb)
      → P db.attempts
      → P (run history db).attempts
  unfolding run
  run_attempts [] db p = p
  run_attempts ((now, command) ∷ rest) db p =
      run_attempts rest (step now command db) (step_attempts now command db p)
