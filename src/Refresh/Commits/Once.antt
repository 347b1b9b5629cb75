-- ===== src/Refresh/Commits/Once.antt =====
-- Transactions of observations are written once, and not by an attempt that lost its claim.
use x_bray.Base.{
  ℕ, String, true, Option, none, some, List, [], ◌∷◌, ◌≡◌, refl, sym, ◌∙◌, ap, subst, arith,
  find_where, any_where, any_where-append, eq_refl, Bool-cases, inl, inr,
}
use x_bray.Refresh.Models.{Db}
use x_bray.Refresh.Attempts.{AttemptContext}
use x_bray.Refresh.Commits.{
  CommitReceipt, CommitDb, CommitResult, raises, returns, is_receipt, same_batch, reconcile_receipt,
  claim_commit_receipt, write_claimed, write_once, attempt_error, unless_raised,
  execute_transaction,
}

-- A transaction, or any change of the tables of a run in between.
pub data CommitCommand (A : Type 0) : Type 0 where
  commits : Option AttemptContext → ℕ → ℕ → Option CommitReceipt → (A → A) → CommitCommand A
  refreshes : (Db → Db) → CommitCommand A

module _ {A : Type 0} where
  -- What a call leaves behind.
  abbrev pub left_by : CommitDb A → CommitResult (CommitDb A) → CommitDb A
  left_by db (raises text) = db
  left_by db (returns db') = db'

  unfoldable pub commit_step : CommitCommand A → CommitDb A → CommitDb A
  unfolding execute_transaction
  commit_step (commits active_attempt now clock receipt writes) db =
      left_by db (execute_transaction active_attempt now clock receipt writes db)
  commit_step (refreshes change) db = record db { refresh = change db.refresh }

  unfoldable pub commit_all : List (CommitCommand A) → CommitDb A → CommitDb A
  unfolding commit_step
  commit_all [] db = db
  commit_all (command ∷ rest) db = commit_all rest (commit_step command db)

  left_by_error :
      (error : Option String) (result : CommitResult (CommitDb A)) (db : CommitDb A)
      → (P : CommitDb A → Type 0) → P db
      → P (left_by db result)
      → P (left_by db (unless_raised error result))
  left_by_error none result db P before after = after
  left_by_error (some text) result db P before after = before

  reconciled_changes_nothing :
      (receipt : CommitReceipt) (writes : A → A) (db : CommitDb A) (found : Option CommitReceipt)
      → left_by db (write_claimed writes db (reconcile_receipt receipt db.receipts found)) ≡ db
  reconciled_changes_nothing receipt writes db none = refl
  reconciled_changes_nothing receipt writes db (some existing) =
      elim (Bool-cases (same_batch existing receipt)) [ inl e ↦ rw e refl | inr e ↦ rw e refl ]

  known_changes_nothing :
      (receipt : CommitReceipt) (writes : A → A) (db : CommitDb A)
      → any_where (is_receipt receipt.extraction_id) db.receipts ≡ true
      → left_by db (write_once (some receipt) writes db) ≡ db
  unfolding write_once claim_commit_receipt
  known_changes_nothing receipt writes db h = rw h (
      reconciled_changes_nothing receipt writes db
        (find_where (is_receipt receipt.extraction_id) db.receipts))

  module _ (extraction_id : String) where
    abbrev HasReceipt : CommitDb A → Type 0
    HasReceipt db = any_where (is_receipt extraction_id) db.receipts ≡ true

    write_once-HasReceipt :
        (receipt : Option CommitReceipt) (writes : A → A) (db : CommitDb A)
        → HasReceipt db
        → HasReceipt (left_by db (write_once receipt writes db))
    unfolding write_once claim_commit_receipt
    write_once-HasReceipt none writes db h = h
    write_once-HasReceipt (some receipt) writes db h =
        elim (Bool-cases (any_where (is_receipt receipt.extraction_id) db.receipts)) [
          | inl e ↦ subst HasReceipt (sym (known_changes_nothing receipt writes db e)) h
          | inr e ↦
              rw e (
                any_where-append (is_receipt extraction_id) db.receipts (receipt ∷ [])
                ∙ (rw h refl))
        ]

    commit_step-HasReceipt :
        (command : CommitCommand A) (db : CommitDb A)
        → HasReceipt db
        → HasReceipt (commit_step command db)
    unfolding commit_step execute_transaction
    commit_step-HasReceipt (commits active_attempt now clock receipt writes) db h =
        left_by_error (attempt_error active_attempt now clock db.refresh)
          (write_once receipt writes db) db HasReceipt h (write_once-HasReceipt receipt writes db h)
    commit_step-HasReceipt (refreshes change) db h = h

    commit_all-HasReceipt :
        (commands : List (CommitCommand A)) (db : CommitDb A)
        → HasReceipt db
        → HasReceipt (commit_all commands db)
    unfolding commit_all
    commit_all-HasReceipt [] db h = h
    commit_all-HasReceipt (command ∷ rest) db h =
        commit_all-HasReceipt rest (commit_step command db) (commit_step-HasReceipt command db h)

  module _ (receipt : CommitReceipt) (writes : A → A) (db db' : CommitDb A) where
    written-HasReceipt :
        write_once (some receipt) writes db ≡ returns db' → HasReceipt receipt.extraction_id db'
    unfolding write_once claim_commit_receipt any_where
    written-HasReceipt done =
        elim (Bool-cases (any_where (is_receipt receipt.extraction_id) db.receipts)) [
          | inl e ↦
              subst (HasReceipt receipt.extraction_id)
                (sym (known_changes_nothing receipt writes db e) ∙ ap (left_by db) done) e
          | inr e ↦ subst (HasReceipt receipt.extraction_id) (ap (left_by db) (rw e at done)) (
              any_where-append (is_receipt receipt.extraction_id) db.receipts (receipt ∷ [])
              ∙ (rw (e, eq_refl receipt.extraction_id) refl))
        ]

    returned-HasReceipt :
        (error : Option String)
        → unless_raised error (write_once (some receipt) writes db) ≡ returns db'
        → HasReceipt receipt.extraction_id db'
    returned-HasReceipt none done = written-HasReceipt done
    returned-HasReceipt (some text) done = absurd (ground (arith, done))

-- Once a transaction with a receipt has returned, each later one with a receipt of the same extraction
-- changes nothing, whatever its batch, its statements and its attempt, after any other transactions
-- and any changes of the runs in between.
pub receipt_is_written_once :
    {A : Type 0}
    → (active_attempt : Option AttemptContext) (now clock : ℕ) (receipt : CommitReceipt)
      (writes : A → A) (db db' : CommitDb A)
    → execute_transaction active_attempt now clock (some receipt) writes db ≡ returns db'
    → (commands : List (CommitCommand A)) (later_attempt : Option AttemptContext)
      (later later_clock : ℕ) (again : CommitReceipt) (rewrites : A → A)
    → again.extraction_id ≡ receipt.extraction_id
    → commit_step
        (commits later_attempt later later_clock (some again) rewrites)
        (commit_all commands db')
      ≡ commit_all commands db'
unfolding execute_transaction commit_step
receipt_is_written_once active_attempt now clock receipt writes db db' done commands later_attempt
      later later_clock again rewrites same =
    let last = commit_all commands db' in
    let known = commit_all-HasReceipt receipt.extraction_id commands db' (
      returned-HasReceipt receipt writes db db' (attempt_error active_attempt now clock db.refresh)
        done) in
    left_by_error (attempt_error later_attempt later later_clock last.refresh)
      (write_once (some again) rewrites last) last (λ d. d ≡ last) refl
      (known_changes_nothing again rewrites last (rw same known))
