-- ===== src/Refresh/Commits/Completed.antt =====
-- An attempt whose claim was completed: `assert_current_refresh_attempt` of backend/db/store.py after
-- `complete_work_item_claim` of backend/db/refresh_run_items.py.
use x_bray.Base.{
  ℕ, Bool, Option, none, some, ◌≡◌, refl, find_where, find_where-update, update_where,
  if◌then◌else◌, Bool-cases, inl, inr,
}
use mathlib.Core.Option
use x_bray.Refresh.Models.{
  RefreshRunRecord, RefreshWorkItemRecord, RefreshWorkItemCompletion, Lease, Db,
}
use x_bray.Refresh.Transaction.{Result, ok, err, ◌>>=◌, transaction, utc_iso, is_run, is_item}
use x_bray.Refresh.Items.Settle.{
  is_current_claim, settle_claim, completed_item, complete_work_item_claim,
}
use x_bray.Refresh.Attempts.{AttemptContext}
use x_bray.Refresh.Commits.{joined_error, assert_current_refresh_attempt}

module _ (context : AttemptContext) (now : ℕ) (completion : RefreshWorkItemCompletion)
    (finished_at : ℕ) (is_completed : RefreshWorkItemRecord → Bool) where
  joined_error-completed :
      (item : Option RefreshWorkItemRecord) (run : Option RefreshRunRecord) (lease : Option Lease)
      → joined_error context now
          (Option.map
            (λ row. if is_completed row then completed_item completion finished_at row else row)
            item)
          run
          lease
        ≡ joined_error context now item run lease
  joined_error-completed none run lease = refl
  joined_error-completed (some item) none lease = refl
  joined_error-completed (some item) (some run) none = refl
  joined_error-completed (some item) (some run) (some lease) =
      elim (Bool-cases (is_completed item)) [ inl e ↦ rw e refl | inr e ↦ rw e refl ]

completed-assert :
    (context : AttemptContext) (now clock : ℕ) (completion : RefreshWorkItemCompletion) (db : Db)
    (finished_at : ℕ) (is_completed : RefreshWorkItemRecord → Bool)
    → assert_current_refresh_attempt context now clock (record db {
      items = update_where is_completed (completed_item completion finished_at) db.items;
    })
      ≡ assert_current_refresh_attempt context now clock db
unfolding assert_current_refresh_attempt
completed-assert context now clock completion db finished_at is_completed =
    rw
      (
        find_where-update (is_item context.run_id context.item_key) is_completed
            (completed_item completion finished_at) db.items (λ x. refl),
        joined_error-completed context now completion finished_at is_completed
            (find_where (is_item context.run_id context.item_key) db.items)
            (find_where (is_run context.run_id) db.runs) db.lease,
      )
      refl

-- A completion does not take from an attempt its leave to write: `assert_current_refresh_attempt` says
-- of every attempt, at every time, the same after `complete_work_item_claim` as before, also of the one
-- whose claim was completed.
pub completed_attempt_may_write :
    (context : AttemptContext) (now clock : ℕ) (completion : RefreshWorkItemCompletion) (db : Db)
    → assert_current_refresh_attempt context now clock (complete_work_item_claim completion db).1
      ≡ assert_current_refresh_attempt context now clock db
unfolding complete_work_item_claim transaction settle_claim
completed_attempt_may_write context now clock completion db =
    by_time (utc_iso completion.finished_at "finished_at")
  where
    by_time :
        (r : Result ℕ)
        → assert_current_refresh_attempt context now clock
            (transaction
              (r >>= λ at. ok (
                settle_claim completion.run_id completion.item_key completion.claim_token at
                  (completed_item completion at)))
              db).1
          ≡ assert_current_refresh_attempt context now clock db
    by_time (err e) = refl
    by_time (ok at) =
        completed-assert context now clock completion db at
          (is_current_claim db completion.run_id completion.item_key completion.claim_token at)
