-- ===== src/Refresh/Attempts/Histories/Counting.antt =====
-- A claim's acquisition is counted once: `mark_refresh_acquisition_started` of backend/db/store.py
-- called again for the same attempt.
use x_bray.Base.{
  ℕ, ◌+◌, sym, if◌then◌else◌, Bool, true, false, List, [], ◌∷◌, ◌≡◌, refl, ◌∙◌, ap, arith, nat_eq,
  count_where, update_where, any_where, any_where-cleared, Bool-cases, inl, inr, subst,
}
use x_bray.Refresh.Models.{RefreshWorkItemRecord}
use x_bray.Refresh.Attempts.{AttemptContext, AttemptRow, AttemptDb, succeeded, is_attempt}
use x_bray.Refresh.Attempts.Acquisition.{
  acquisition_counted, is_unstarted, outbound_started, is_claimed_item, mark_first, mark_again,
  is_current_start, mark_refresh_acquisition_started,
}
use x_bray.Refresh.Attempts.Histories.{AttemptCommand, after, run}
use x_bray.Refresh.Attempts.Histories.Finality.{IsMarked, run-IsMarked, is_attempt-update}

module _ (context : AttemptContext) (now : ℕ) where
  present_of :
      (p : AttemptRow → Bool) (rows : List AttemptRow)
      → ((x : AttemptRow) → p x ≡ true → is_attempt context.attempt_id x ≡ true)
      → any_where p rows ≡ true
      → any_where (is_attempt context.attempt_id) rows ≡ true
  unfolding any_where
  present_of p [] narrower h = h
  present_of p (x ∷ rows) narrower h = ground (arith, narrower x, present_of p rows narrower, h)

  outbound_started-IsMarked :
      (db : AttemptDb)
      → any_where (is_unstarted context) db.attempts ≡ true
      → IsMarked context (update_where (is_unstarted context) (outbound_started now) db.attempts)
  outbound_started-IsMarked db h = (
    is_attempt-update context (is_unstarted context) (outbound_started now) db.attempts (λ x. refl)
        ∙ present_of (is_unstarted context) db.attempts (λ x k. ground (arith, k)) h,
    any_where-cleared (is_unstarted context) (outbound_started now) db.attempts (λ x. ground arith),
  )

  mark_first-IsMarked :
      (db db' : AttemptDb)
      → any_where (is_unstarted context) db.attempts ≡ true
      → mark_first context now db ≡ succeeded db'
      → IsMarked context db'.attempts
  mark_first-IsMarked db db' h done =
      elim (Bool-cases (nat_eq (count_where (is_claimed_item context now) db.items) 1)) [
        | inl e ↦
            subst (IsMarked context) (ap (λ result. (after db result).attempts) (rw e at done))
              (outbound_started-IsMarked db h)
        | inr e ↦ absurd (ground (arith, done, e))
      ]

  mark_again-IsMarked :
      (db db' : AttemptDb)
      → any_where (is_unstarted context) db.attempts ≡ false
      → mark_again context now db ≡ succeeded db'
      → IsMarked context db'.attempts
  mark_again-IsMarked db db' h done =
      elim (Bool-cases (any_where (is_current_start context now db.items) db.attempts)) [
        | inl e ↦
            subst (IsMarked context) (ap (λ result. (after db result).attempts) (rw e at done)) (
              present_of (is_current_start context now db.items) db.attempts
                  (λ x k. ground (arith, k)) e,
              h,
            )
        | inr e ↦ absurd (ground (arith, done, e))
      ]

  mark_refresh_acquisition_started-IsMarked :
      (db db' : AttemptDb)
      → mark_refresh_acquisition_started context now db ≡ succeeded db'
      → IsMarked context db'.attempts
  unfolding mark_refresh_acquisition_started
  mark_refresh_acquisition_started-IsMarked db db' done =
      elim (Bool-cases (any_where (is_unstarted context) db.attempts)) [
        | inl e ↦ mark_first-IsMarked db db' e (rw e at done)
        | inr e ↦ mark_again-IsMarked db db' e (rw e at done)
      ]

mark_again-after :
    (context : AttemptContext) (now : ℕ) (db : AttemptDb)
    → after db (mark_again context now db) ≡ db
mark_again-after context now db =
    elim (Bool-cases (any_where (is_current_start context now db.items) db.attempts)) [
      | inl e ↦ rw e refl
      | inr e ↦ rw e refl
    ]

mark-after_marked :
    (context : AttemptContext) (now : ℕ) (db : AttemptDb)
    → IsMarked context db.attempts
    → after db (mark_refresh_acquisition_started context now db) ≡ db
unfolding mark_refresh_acquisition_started
mark-after_marked context now db (present, marked) = rw marked (mark_again-after context now db)

-- The acquisitions that all items count together.
unfoldable pub total_acquisitions : List RefreshWorkItemRecord → ℕ
total_acquisitions [] = 0
total_acquisitions (row ∷ rows) = row.acquisition_attempts + total_acquisitions rows

total_acquisitions-update :
    (c : RefreshWorkItemRecord → Bool) (now : ℕ) (rows : List RefreshWorkItemRecord)
    → total_acquisitions (update_where c (acquisition_counted now) rows)
      ≡ total_acquisitions rows + count_where c rows
unfolding total_acquisitions update_where count_where
total_acquisitions-update c now [] = refl
total_acquisitions-update c now (row ∷ rows) = ground (arith, total_acquisitions-update c now rows)

mark_first-counts :
    (context : AttemptContext) (now : ℕ) (db db' : AttemptDb)
    → mark_first context now db ≡ succeeded db'
    → total_acquisitions db'.items ≡ total_acquisitions db.items + 1
mark_first-counts context now db db' done =
    elim (Bool-cases (nat_eq (count_where (is_claimed_item context now) db.items) 1)) [
      | inl e ↦
          let same : update_where (is_claimed_item context now) (acquisition_counted now) db.items
              ≡ db'.items =
            ap (λ result. (after db result).items) (rw e at done) in
          ap total_acquisitions (sym same)
          ∙ (total_acquisitions-update (is_claimed_item context now) now db.items
              ∙ ground (arith, e))
      | inr e ↦ absurd (ground (arith, done, e))
    ]

mark_again-counts :
    (context : AttemptContext) (now : ℕ) (db db' : AttemptDb)
    → mark_again context now db ≡ succeeded db'
    → db' ≡ db
mark_again-counts context now db db' done =
    elim (Bool-cases (any_where (is_current_start context now db.items) db.attempts)) [
      | inl e ↦ sym (ap (after db) (rw e at done))
      | inr e ↦ absurd (ground (arith, done, e))
    ]

mark-counts :
    (context : AttemptContext) (now : ℕ) (db db' : AttemptDb)
    → mark_refresh_acquisition_started context now db ≡ succeeded db'
    → total_acquisitions db'.items
      ≡ total_acquisitions db.items
        + (if any_where (is_unstarted context) db.attempts then 1 else 0)
unfolding mark_refresh_acquisition_started
mark-counts context now db db' done =
    elim (Bool-cases (any_where (is_unstarted context) db.attempts)) [
      | inl e ↦ rw e (mark_first-counts context now db db' (rw e at done))
      | inr e ↦ rw e (
          ap (λ d. total_acquisitions d.items) (mark_again-counts context now db db' (rw e at done))
          ∙ omega arith)
    ]

-- A claim's acquisition is counted once. A call that marks it adds one to the acquisitions that the items
-- count together, where the attempt was stored as running and unmarked, and none otherwise; after it,
-- marking it again changes nothing, at any later time and after any calls in between.
pub acquisition_is_counted_once :
    (context : AttemptContext) (now : ℕ) (db db' : AttemptDb)
    → mark_refresh_acquisition_started context now db ≡ succeeded db'
    → (history : List (ℕ × AttemptCommand)) (later : ℕ)
    → (total_acquisitions db'.items
        ≡ total_acquisitions db.items
          + (if any_where (is_unstarted context) db.attempts then 1 else 0))
      × (after (run history db') (mark_refresh_acquisition_started context later (run history db'))
          ≡ run history db')
acquisition_is_counted_once context now db db' done history later = (
  mark-counts context now db db' done,
  mark-after_marked context later (run history db') (
      run-IsMarked context history db'
        (mark_refresh_acquisition_started-IsMarked context now db db' done)),
)
