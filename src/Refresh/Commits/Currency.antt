-- ===== src/Refresh/Commits/Currency.antt =====
-- The check of a transaction's attempt against the check of an answer to its claim:
-- `assert_current_refresh_attempt` of backend/db/store.py and `complete_work_item_claim` of
-- backend/db/refresh_run_items.py.
use x_bray.Base.{
  ◌&&◌, nat_eq, is_after, ℕ, String, Bool, true, false, Option, none, some, List, [], ◌∷◌, ◌≡◌,
  refl, ap, arith, is_none, find_where, find_where-holds, any_where, Bool-cases, inl, inr,
}
use x_bray.Refresh.Models.{RefreshRunRecord, RefreshWorkItemRecord, Lease, Db}
use x_bray.Refresh.Transaction.{is_run, is_item}
use x_bray.Refresh.Items.Claims.{is_running_run, has_live_lease}
use x_bray.Refresh.Items.Settle.{has_token}
use x_bray.Refresh.Attempts.{AttemptContext}
use x_bray.Refresh.Commits.{
  CommitReceipt, CommitDb, CommitResult, joined_error, assert_current_refresh_attempt,
  attempt_error, unless_raised, write_once, execute_transaction,
}
use x_bray.Refresh.Commits.Once.{left_by}

any_where-find_where :
    {A : Type 0}
    → (p q : A → Bool) (xs : List A) (a : A) → find_where p xs ≡ some a
    → q a ≡ true
    → any_where q xs ≡ true
unfolding find_where any_where
any_where-find_where p q [] a found holds = absurd (ground (arith, found))
any_where-find_where p q (x ∷ xs) a found holds = elim (Bool-cases (p x)) [
  | inl e ↦
      let same : x ≡ a = ap (λ o. elim o [ none ↦ a | some y ↦ y ]) (rw e at found) in
      rw same (rw holds refl)
  | inr e ↦ ground (arith, any_where-find_where p q xs a (rw e at found) holds)
]

-- The row is the attempt's item and holds its claim: the token, the generation, and time left. The
-- status is not asked.
abbrev pub holds_claim : AttemptContext → ℕ → RefreshWorkItemRecord → Bool
holds_claim context now row =
    is_item context.run_id context.item_key row
    && has_token context.claim_token row.claim_token
    && nat_eq row.claim_generation context.generation
    && is_after row.claim_expires_at now

-- What lets an attempt write: its claim, its run, and the daily lease.
abbrev pub may_write : AttemptContext → ℕ → Db → Bool
may_write context now db =
    any_where (holds_claim context now) db.items
    && any_where (is_running_run context.run_id) db.runs
    && has_live_lease db.lease context.run_id now

module _ (context : AttemptContext) (now : ℕ) (db : Db) where
  joined_error-may_write :
      (item : Option RefreshWorkItemRecord) (run : Option RefreshRunRecord) (lease : Option Lease)
      → find_where (is_item context.run_id context.item_key) db.items ≡ item
      → find_where (is_run context.run_id) db.runs ≡ run
      → db.lease ≡ lease
      → is_none (joined_error context now item run lease) ≡ true
      → may_write context now db ≡ true
  joined_error-may_write none run lease i r l passes = absurd (ground (arith, passes))
  joined_error-may_write (some item) none lease i r l passes = absurd (ground (arith, passes))
  joined_error-may_write (some item) (some run) none i r l passes = absurd (ground (arith, passes))
  joined_error-may_write (some item) (some run) (some lease) i r l passes =
      let running : any_where (is_running_run context.run_id) db.runs ≡ true =
        any_where-find_where (is_run context.run_id) (is_running_run context.run_id) db.runs run r
          (ground (arith, passes, find_where-holds (is_run context.run_id) db.runs run r)) in
      let leased : has_live_lease db.lease context.run_id now ≡ true =
        rw l (ground (arith, passes)) in
      let held : any_where (holds_claim context now) db.items ≡ true =
        any_where-find_where (is_item context.run_id context.item_key) (holds_claim context now)
          db.items item i
          (ground (
            arith,
            passes,
            find_where-holds (is_item context.run_id context.item_key) db.items item i,
          )) in
      ground (arith, running, leased, held)

  passed-may_write :
      (clock : ℕ)
      → is_none (assert_current_refresh_attempt context now clock db) ≡ true
      → may_write context now db ≡ true
  unfolding assert_current_refresh_attempt
  passed-may_write clock passes =
      joined_error-may_write (find_where (is_item context.run_id context.item_key) db.items)
        (find_where (is_run context.run_id) db.runs) db.lease refl refl refl
        (ground (arith, passes))

refused :
    {A : Type 0}
    → (error : Option String) (result : CommitResult (CommitDb A)) (db : CommitDb A)
    → is_none error ≡ false
    → left_by db (unless_raised error result) ≡ db
refused none result db h = absurd (ground (arith, h))
refused (some text) result db h = refl

-- Where no row of the attempt's item has its token, its generation and time left, or its run is not
-- running, or its run does not hold a live daily lease, a transaction of the attempt changes nothing,
-- its statements and its receipt included.
pub lost_claim_writes_nothing :
    {A : Type 0}
    → (context : AttemptContext) (now clock : ℕ) (receipt : Option CommitReceipt) (writes : A → A)
      (db : CommitDb A)
    → (any_where (holds_claim context now) db.refresh.items
        && any_where (is_running_run context.run_id) db.refresh.runs
        && has_live_lease db.refresh.lease context.run_id now)
      ≡ false
    → left_by db (execute_transaction (some context) now clock receipt writes db) ≡ db
unfolding execute_transaction attempt_error
lost_claim_writes_nothing context now clock receipt writes db lost =
    refused (assert_current_refresh_attempt context now clock db.refresh)
      (write_once receipt writes db) db
      (elim (Bool-cases (is_none (assert_current_refresh_attempt context now clock db.refresh))) [
        | inl e ↦ absurd (ground (arith, passed-may_write context now db.refresh clock e, lost))
        | inr e ↦ e
      ])
