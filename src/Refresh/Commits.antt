-- ===== src/Refresh/Commits.antt =====
-- Transactions that write observations: `assert_current_refresh_attempt`, `_claim_commit_receipt` and,
-- for calls without a canary binding, `execute_transaction` of backend/db/store.py.
pub mod Completed
pub mod Currency
pub mod Once
pub mod Scenarios
use x_bray.Base.{
  ℕ, ◌+◌, String, Bool, true, false, Option, none, some, List, [], ◌∷◌, ◌++◌, ◌==◌, ◌&&◌, ◌||◌, not,
  leb, ltb, nat_eq, is_after, find_where, any_where, if◌then◌else◌,
}
use x_bray.Refresh.Models.{
  RefreshRunRecord, RefreshWorkItemRecord, Lease, Backend, sqlite, postgres, Db, is_running,
}
use x_bray.Refresh.Transaction.{is_run, is_item}
use x_bray.Refresh.Attempts.{AttemptContext, is_text_of}

-- A row of `source_acquisition_commits`.
pub record CommitReceipt : Type 0 where
  pub extraction_id : String
  pub selected_route : String
  pub candidate_id : Option String
  pub observation_count : ℕ
  pub source_payload_sha256 : String
  pub committed_at : ℕ

-- The tables of a run, the receipts, and the tables that the statements write.
pub record CommitDb (A : Type 0) : Type 0 where
  pub refresh : Db
  pub receipts : List CommitReceipt
  pub business : A

-- An exception rolls the transaction back.
pub data CommitResult (A : Type 0) : Type 0 where
  raises : String → CommitResult A
  returns : A → CommitResult A

abbrev pub expired_claim : String
expired_claim = "refresh claim is expired or has been replaced"

abbrev pub is_postgres : Backend → Bool
is_postgres postgres = true
is_postgres sqlite = false

-- A token that is NULL is no claim's: `str(None)` is not a token of `uuid4`.
abbrev pub is_replaced :
    AttemptContext → ℕ → RefreshWorkItemRecord → RefreshRunRecord → Lease → Bool
is_replaced context now item run lease =
    not (is_text_of item.claim_token context.claim_token)
    || not (nat_eq item.claim_generation context.generation)
    || not (is_after item.claim_expires_at now)
    || not (is_running run.state)
    || not (lease.owner == context.run_id)
    || leb lease.expires_at now

-- The row of the join, if there is one.
abbrev pub joined_error :
    AttemptContext
    → ℕ
    → Option RefreshWorkItemRecord
    → Option RefreshRunRecord
    → Option Lease
    → Option String
joined_error context now none run lease = some "refresh claim is no longer current"
joined_error context now (some item) none lease = some "refresh claim is no longer current"
joined_error context now (some item) (some run) none = some "refresh claim is no longer current"
joined_error context now (some item) (some run) (some lease) =
    if is_replaced context now item run lease then some expired_claim else none

-- The error, if it raises. `clock` is the second reading of the clock, which only PostgreSQL takes: less
-- than a millisecond left is none.
unfoldable pub assert_current_refresh_attempt : AttemptContext → ℕ → ℕ → Db → Option String
unfolding find_where
assert_current_refresh_attempt context now clock db =
    if is_postgres db.backend && ltb context.expires_at (clock + 1000)
    then some expired_claim
    else joined_error context now (find_where (is_item context.run_id context.item_key) db.items)
        (find_where (is_run context.run_id) db.runs) db.lease

abbrev pub is_receipt : String → CommitReceipt → Bool
is_receipt extraction_id row = row.extraction_id == extraction_id

abbrev pub same_candidate : Option String → Option String → Bool
same_candidate none none = true
same_candidate (some one) (some other) = one == other
same_candidate none (some other) = false
same_candidate (some one) none = false

-- `actual == tuple(receipt[1:5])`
abbrev pub same_batch : CommitReceipt → CommitReceipt → Bool
same_batch existing receipt =
    existing.selected_route == receipt.selected_route
    && same_candidate existing.candidate_id receipt.candidate_id
    && nat_eq existing.observation_count receipt.observation_count
    && existing.source_payload_sha256 == receipt.source_payload_sha256

abbrev pub reconcile_receipt :
    CommitReceipt
    → List CommitReceipt
    → Option CommitReceipt
    → CommitResult (Bool × List CommitReceipt)
reconcile_receipt receipt receipts none =
    raises "operation receipt conflict could not be reconciled"
reconcile_receipt receipt receipts (some existing) =
    if same_batch existing receipt
    then returns (false, receipts)
    else raises "operation id already has a different selected batch receipt"

unfoldable pub claim_commit_receipt :
    CommitReceipt → List CommitReceipt → CommitResult (Bool × List CommitReceipt)
unfolding any_where find_where
claim_commit_receipt receipt receipts =
    if any_where (is_receipt receipt.extraction_id) receipts
    then reconcile_receipt receipt receipts (find_where (is_receipt receipt.extraction_id) receipts)
    else returns (true, receipts ++ receipt ∷ [])

unfoldable pub attempt_error : Option AttemptContext → ℕ → ℕ → Db → Option String
unfolding assert_current_refresh_attempt
attempt_error none now clock db = none
attempt_error (some context) now clock db = assert_current_refresh_attempt context now clock db

module _ {A : Type 0} where
  -- A receipt that was there already ends the transaction without its statements.
  abbrev pub write_claimed :
      (A → A) → CommitDb A → CommitResult (Bool × List CommitReceipt) → CommitResult (CommitDb A)
  write_claimed writes db (raises text) = raises text
  write_claimed writes db (returns (false, receipts)) = returns db
  write_claimed writes db (returns (true, receipts)) =
      returns (record db { receipts = receipts; business = writes db.business })

  unfoldable pub write_once :
      Option CommitReceipt → (A → A) → CommitDb A → CommitResult (CommitDb A)
  unfolding claim_commit_receipt
  write_once none writes db = returns (record db { business = writes db.business })
  write_once (some receipt) writes db =
      write_claimed writes db (claim_commit_receipt receipt db.receipts)

  abbrev pub unless_raised : Option String → CommitResult (CommitDb A) → CommitResult (CommitDb A)
  unless_raised none result = result
  unless_raised (some text) result = raises text

  unfoldable pub execute_transaction :
      Option AttemptContext
      → ℕ
      → ℕ
      → Option CommitReceipt
      → (A → A)
      → CommitDb A
      → CommitResult (CommitDb A)
  unfolding attempt_error write_once
  execute_transaction active_attempt now clock commit_receipt writes db =
      unless_raised (attempt_error active_attempt now clock db.refresh)
        (write_once commit_receipt writes db)
