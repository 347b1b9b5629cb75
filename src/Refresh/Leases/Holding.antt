-- ===== src/Refresh/Leases/Holding.antt =====
-- The holder of a named lease, and the success times of task rows.
use mathlib.Core.Option
use x_bray.Base.{
  any_where-find, count_where-eq_zero_of_single, select_where-all, ℕ, ◌<◌, ◌≤◌, String, true, false,
  Option, none, some, List, [], ◌∷◌, ◌++◌, ◌≡◌, refl, ◌==◌, inl, inr, leb, arith, eq_refl,
  find_where, update_where, count_where, find_where-update, find_where-holds, update_where-none,
  Bool-cases,
}
use x_bray.Refresh.Leases.{
  LeaseRow, is_lock, is_owned_lock, take_over, acquire_found, acquire_refresh_lease, extend,
  heartbeat_refresh_lease, release_refresh_lease, TaskRow, is_task, started_row, finished_row,
  TaskFinish, is_success, record_refresh_task_start, preserved_success, record_refresh_task_finish,
}

find_where-last :
    (lock_key : String) (rows : List LeaseRow) (row : LeaseRow)
    → find_where (is_lock lock_key) rows ≡ none
    → is_lock lock_key row ≡ true
    → find_where (is_lock lock_key) (rows ++ row ∷ []) ≡ some row
unfolding find_where
find_where-last lock_key [] row h k = rw k refl
find_where-last lock_key (r ∷ rows) row h k = ground (arith, find_where-last lock_key rows row)

-- What an acquisition that returned true has stored.
acquired-row :
    (lock_key owner : String) (expires_at now : ℕ) (rows : List LeaseRow)
    → (acquire_refresh_lease lock_key owner expires_at now rows).0 ≡ true
    → (row : LeaseRow) × (find_where
          (is_lock lock_key)
          (acquire_refresh_lease lock_key owner expires_at now rows).1
        ≡ some row)
      × (row.owner ≡ owner)
      × (row.expires_at ≡ expires_at)
unfolding acquire_refresh_lease
acquired-row lock_key owner expires_at now rows h =
    by_row (find_where (is_lock lock_key) rows) refl h
  where
    by_row :
        (found : Option LeaseRow)
        → find_where (is_lock lock_key) rows ≡ found
        → (acquire_found found lock_key owner expires_at now rows).0 ≡ true
        → (row : LeaseRow) × (find_where
              (is_lock lock_key)
              (acquire_found found lock_key owner expires_at now rows).1
            ≡ some row)
          × (row.owner ≡ owner)
          × (row.expires_at ≡ expires_at)
    by_row none e h =
        let row : LeaseRow = record {
          lock_key = lock_key;
          owner = owner;
          expires_at = expires_at;
        } in
        (row, find_where-last lock_key rows row e (eq_refl lock_key), refl, refl)
    by_row (some row) e h = elim (Bool-cases (leb row.expires_at now)) [
      | inr held ↦ absurd (ground (arith, rw held at h))
      | inl expired ↦ rw expired (
        take_over owner expires_at row,
        ground (
          arith,
          e,
          find_where-holds (is_lock lock_key) rows row e,
          find_where-update (is_lock lock_key) (is_lock lock_key) (take_over owner expires_at) rows
              (λ r. refl),
        ),
        refl,
        refl,
      )
    ]

held_lease :
    (lock_key other : String) (other_expiry later : ℕ) (row : LeaseRow) (table : List LeaseRow)
    → find_where (is_lock lock_key) table ≡ some row
    → leb row.expires_at later ≡ false
    → acquire_refresh_lease lock_key other other_expiry later table ≡ (false, table)
unfolding acquire_refresh_lease
held_lease lock_key other other_expiry later row table e live = rw (e, live) refl

-- Once acquired, a lease cannot be acquired by anybody, its holder included, before it expires, and
-- the attempt changes nothing.
pub lease_is_exclusive :
    (lock_key owner other : String) (expires_at now later other_expiry : ℕ) (rows : List LeaseRow)
    → (acquire_refresh_lease lock_key owner expires_at now rows).0 ≡ true
    → later < expires_at
    → acquire_refresh_lease lock_key other other_expiry later
        (acquire_refresh_lease lock_key owner expires_at now rows).1
      ≡ (false, (acquire_refresh_lease lock_key owner expires_at now rows).1)
lease_is_exclusive lock_key owner other expires_at now later other_expiry rows h lt =
    let row = acquired-row lock_key owner expires_at now rows h in
    held_lease lock_key other other_expiry later row.0
      (acquire_refresh_lease lock_key owner expires_at now rows).1 row.1 (ground (arith, row.3))

-- While the lock has one row, of another owner, a heartbeat and a release under one's own name
-- return false and change nothing.
pub stranger_cannot_disturb :
    (lock_key stranger : String) (expires_at : ℕ) (rows : List LeaseRow) (row : LeaseRow)
    → find_where (is_lock lock_key) rows ≡ some row
    → count_where (is_lock lock_key) rows ≤ 1
    → (row.owner == stranger) ≡ false
    → (heartbeat_refresh_lease lock_key stranger expires_at rows ≡ (false, rows))
      × (release_refresh_lease lock_key stranger rows ≡ (false, rows))
unfolding heartbeat_refresh_lease release_refresh_lease
stranger_cannot_disturb lock_key stranger expires_at rows row e single differs =
    let none_owned =
      count_where-eq_zero_of_single (is_lock lock_key) (is_owned_lock lock_key stranger) rows row e
        single (λ r h. ground arith) (ground (arith, differs)) in
    (
      rw
          (
            none_owned,
            update_where-none (is_owned_lock lock_key stranger) (extend expires_at) rows none_owned,
          )
          refl,
      rw (none_owned, select_where-all (is_owned_lock lock_key stranger) rows none_owned) refl,
    )

-- A task that starts and then finishes without a success keeps the time of its last success.
pub failure_keeps_last_success :
    (finish : TaskFinish) (provider : String) (expected started_at : ℕ) (rows : List TaskRow)
    (row : TaskRow)
    → find_where (is_task finish.task) rows ≡ some row
    → is_success finish ≡ false
    → Option.map
        (λ r. r.last_success)
        (find_where
          (is_task finish.task)
          (record_refresh_task_finish finish none
            (record_refresh_task_start finish.task provider expected started_at rows)).1)
      ≡ some row.last_success
unfolding record_refresh_task_finish record_refresh_task_start
failure_keeps_last_success finish provider expected started_at rows row e fails =
    let started =
      update_where (is_task finish.task) (started_row provider expected started_at) rows in
    let found =
      find_where-update (is_task finish.task) (is_task finish.task)
        (started_row provider expected started_at) rows (λ r. refl) in
    ground (
      arith,
      e,
      fails,
      found,
      any_where-find (is_task finish.task) rows row e,
      find_where-update (is_task finish.task) (is_task finish.task)
          (finished_row finish
            (preserved_success finish (find_where (is_task finish.task) started)))
          started (λ r. refl),
    )
