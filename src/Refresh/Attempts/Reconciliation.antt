-- ===== src/Refresh/Attempts/Reconciliation.antt =====
-- `reconcile_expired_refresh_attempts` of backend/db/store.py. The query for the durable receipt of an
-- attempt, over the tables of commits, is a function of the attempt.
pub mod Idempotence
use x_bray.Base.{
  ℕ, zero, suc, ◌+◌, String, Bool, true, false, Option, none, some, List, [], ◌∷◌, ◌++◌, ◌==◌, ◌&&◌,
  leb, nat_eq, is_none, is_due, select_where, update_where, any_where, if◌then◌else◌,
}
use Prim.Native.String
use x_bray.Refresh.Models.{RefreshWorkItemRecord}
use x_bray.Refresh.Attempts.{
  AttemptRow, ReconciliationRow, AttemptDb, is_running_attempt, is_text_of, is_item_claimed,
  milestone,
}

-- The first row of the UNION ALL, if there is one.
pub record Receipt : Type 0 where
  pub observation_count : ℕ
  pub source_data_date : Option String
  pub extraction_id : String

abbrev pub is_expired_item : AttemptRow → ℕ → RefreshWorkItemRecord → Bool
is_expired_item attempt now row =
    row.run_id == attempt.run_id
    && row.item_key == attempt.item_key
    && is_item_claimed row.status
    && nat_eq row.attempt attempt.claim_generation
    && is_text_of row.claim_token attempt.claim_token
    && is_due row.claim_expires_at now

abbrev pub is_candidate : String → ℕ → List RefreshWorkItemRecord → AttemptRow → Bool
is_candidate run_id now items row =
    row.run_id == run_id
    && is_none row.terminal_at
    && leb row.claim_expires_at now
    && any_where (is_expired_item row now) items

abbrev pub receipt_outcome : Option Receipt → String
receipt_outcome none = "outcome_unknown"
receipt_outcome (some receipt) = "committed"

abbrev pub committed_count_of : Option Receipt → Option ℕ
committed_count_of none = none
committed_count_of (some receipt) = some receipt.observation_count

abbrev pub source_date_of : Option Receipt → Option String
source_date_of none = none
source_date_of (some receipt) = receipt.source_data_date

abbrev pub evidence_of : Option Receipt → String
evidence_of none = "claim_expired_without_terminal_receipt"
evidence_of (some receipt) = String.◌++◌ "durable_receipt:" receipt.extraction_id

abbrev pub is_reconciliation : String → String → ReconciliationRow → Bool
is_reconciliation attempt_id outcome row = row.attempt_id == attempt_id && row.outcome == outcome

abbrev pub reconciled_attempt : Option Receipt → ℕ → AttemptRow → AttemptRow
reconciled_attempt receipt now row = record row {
  terminal_outcome = some (receipt_outcome receipt);
  terminal_at = some now;
  committed_count = committed_count_of receipt;
  source_data_date = source_date_of receipt;
}

abbrev pub reconciliation : String → Option Receipt → ℕ → ReconciliationRow
reconciliation attempt_id receipt now = record {
  attempt_id = attempt_id;
  observed_at = now;
  outcome = receipt_outcome receipt;
  committed_count = committed_count_of receipt;
  source_data_date = source_date_of receipt;
  evidence = evidence_of receipt;
}

abbrev pub insert_reconciliation : String → Option Receipt → ℕ → AttemptDb → AttemptDb
insert_reconciliation attempt_id receipt now db = record db {
  attempts =
      update_where (is_running_attempt attempt_id) (reconciled_attempt receipt now) db.attempts;
  milestones =
      db.milestones
      ++ milestone attempt_id "reconciled" now (receipt_outcome receipt)
          (some (evidence_of receipt))
        ∷ [];
  reconciliations = db.reconciliations ++ reconciliation attempt_id receipt now ∷ [];
}

-- One candidate: whether its reconciliation was inserted, and the tables after it.
unfoldable pub reconcile_one : String → Option Receipt → ℕ → AttemptDb → Bool × AttemptDb
reconcile_one attempt_id receipt now db =
    if any_where (is_reconciliation attempt_id (receipt_outcome receipt)) db.reconciliations
    then (false, db)
    else (true, insert_reconciliation attempt_id receipt now db)

abbrev pub counted : Bool → ℕ × AttemptDb → ℕ × AttemptDb
counted true (count, db) = (suc count, db)
counted false (count, db) = (count, db)

unfoldable pub reconcile_candidates :
    (String → Option Receipt) → ℕ → List AttemptRow → AttemptDb → ℕ × AttemptDb
unfolding reconcile_one
reconcile_candidates receipt_of now [] db = (0, db)
reconcile_candidates receipt_of now (row ∷ rows) db =
    let one = reconcile_one row.attempt_id (receipt_of row.attempt_id) now db in
    counted one.0 (reconcile_candidates receipt_of now rows one.1)

unfoldable pub reconcile_expired_refresh_attempts :
    (String → Option Receipt) → String → ℕ → AttemptDb → ℕ × AttemptDb
unfolding reconcile_candidates
reconcile_expired_refresh_attempts receipt_of run_id now db =
    reconcile_candidates receipt_of now
      (select_where (is_candidate run_id now db.items) db.attempts) db
