-- ===== src/Refresh/Commands/KeptByCreate.antt =====
-- Creating or resuming a run, and the row of a run that has ended.
use x_bray.Base.{
  ℕ, String, Option, none, some, List, refl, ◌==◌, ◌&&◌, not, inl, inr, arith, leb, any_where,
  find_where, Bool-cases, order_by,
}
use x_bray.Refresh.Models.{
  RefreshRunRecord, RefreshRunSnapshot, RefreshWorkItemRecord, Lease, Db, is_running,
  RefreshRunStart,
}
use x_bray.Refresh.Transaction.{Result, ok, err, ◌>>=◌, is_run, read_snapshot}
use x_bray.Refresh.Items.Claims.{is_running_run, live_in_run}
use x_bray.Refresh.Lifecycle.Manifest.{NormalStart, same_manifest, spec_order}
use x_bray.Refresh.Lifecycle.Insert.{new_run, with_run, insert_items, insert_run}
use x_bray.Refresh.Lifecycle.Abandon.{abandoned_run, fail_run, abandon_found, abandon_expired_run}
use x_bray.Refresh.Lifecycle.Create.{
  acquire_lease, release_previous, resume_or_insert, snapshot_or_raise, take_lease, run_under_lease,
  resume_finished, finished_snapshot, create_in_transaction, normalize_start, create_or_resume_run,
}
use x_bray.Refresh.Commands.History.{
  HasEnded, HasEnded-update, HasEnded-append, StillEnded, parsed-HasEnded,
}

-- What a step that returns a database leaves.
abbrev KeepsEnded : String → RefreshRunRecord → Result Db → Type 0
KeepsEnded run_id run (ok db) = HasEnded run_id run db.runs
KeepsEnded run_id run (err e) = Unit

module _ (run_id : String) (run : RefreshRunRecord) where
  ended_abandon :
      (db : Db) (found : Option RefreshRunRecord) (owner : String) (now : ℕ) (new_owner : String)
      → HasEnded run_id run db.runs
      → KeepsEnded run_id run (abandon_found found owner now new_owner db)
  unfolding fail_run
  ended_abandon db none owner now new_owner h = h
  ended_abandon db (some row) owner now new_owner h = elim (Bool-cases (is_running row.state)) [
    | inr finished ↦ rw finished h
    | inl running ↦ elim (Bool-cases (any_where (live_in_run owner now) db.items)) [
      | inl live ↦ rw (running, live) tt
      | inr idle ↦
          rw (running, idle)
            (HasEnded-update run_id run (is_running_run owner) (abandoned_run now) db.runs
              (λ row k. ground arith) (λ row. refl) h)
    ]
  ]

  ended_release :
      (lease : Option Lease) (start : NormalStart) (db : Db)
      → HasEnded run_id run db.runs
      → KeepsEnded run_id run (release_previous lease start db)
  unfolding abandon_expired_run
  ended_release none start db h = h
  ended_release (some lease) start db h =
      elim (Bool-cases (not (lease.owner == start.run_id) && leb lease.expires_at start.now)) [
        | inr current ↦ rw current h
        | inl expired ↦ rw expired (
            ended_abandon db (find_where (is_run lease.owner) db.runs) lease.owner start.now
              start.run_id h)
      ]

  ended_insert :
      (start : NormalStart) (db : Db) (r : Result (List RefreshWorkItemRecord))
      → HasEnded run_id run db.runs
      → KeepsEnded run_id run (r >>= λ items. ok (with_run start db items))
  ended_insert start db (ok items) h = HasEnded-append run_id run (new_run start) db.runs h
  ended_insert start db (err e) h = tt

  ended_snapshot :
      (start : NormalStart) (db : Db) (s : Option RefreshRunSnapshot)
      → HasEnded run_id run db.runs
      → StillEnded run_id run (snapshot_or_raise s start db)
  ended_snapshot start db none h = tt
  ended_snapshot start db (some s) h = h

  ended_then {ℓ} :
      {A : Type ℓ} (r : Result Db) (f : Db → Result (A × Db))
      → KeepsEnded run_id run r
      → ((db : Db) → HasEnded run_id run db.runs → StillEnded run_id run (f db))
      → StillEnded run_id run (r >>= f)
  ended_then (ok db) f h k = k db h
  ended_then (err e) f h k = tt

  ended_resume :
      (existing : Option RefreshRunSnapshot) (start : NormalStart) (db : Db)
      → HasEnded run_id run db.runs
      → StillEnded run_id run (resume_or_insert existing start db)
  unfolding insert_run
  ended_resume none start db h =
      ended_then (insert_run start db)
        (λ db'. snapshot_or_raise (read_snapshot db' start.run_id) start db')
        (ended_insert start db
          (insert_items start.run_id start.now (order_by spec_order start.items) db.items) h)
        (λ db' h'. ended_snapshot start db' (read_snapshot db' start.run_id) h')
  ended_resume (some s) start db h = elim (Bool-cases (same_manifest db s start)) [
    | inr other ↦ rw other tt
    | inl same ↦ elim (Bool-cases (is_running s.run.state)) [
      | inl running ↦ rw (same, running) h
      | inr finished ↦ rw (same, finished) h
    ]
  ]

  ended_lease :
      (start : NormalStart) (db : Db)
      → HasEnded run_id run db.runs
      → StillEnded run_id run (take_lease start db)
  ended_lease start db h = elim (Bool-cases (acquire_lease db.lease start).0) [
    | inr refused ↦ rw refused tt
    | inl acquired ↦
        let db' = record db { lease = (acquire_lease db.lease start).1 } in
        rw acquired (ended_resume (read_snapshot db' start.run_id) start db' h)
  ]

  ended_run :
      (start : NormalStart) (db : Db)
      → HasEnded run_id run db.runs
      → StillEnded run_id run (run_under_lease start db)
  unfolding run_under_lease
  ended_run start db h =
      ended_then (release_previous db.lease start db) (λ db'. take_lease start db')
        (ended_release db.lease start db h) (λ db' h'. ended_lease start db' h')

  ended_create :
      (existing : Option RefreshRunSnapshot) (start : NormalStart) (db : Db)
      → HasEnded run_id run db.runs
      → StillEnded run_id run (resume_finished existing start db)
  ended_create none start db h = ended_run start db h
  ended_create (some s) start db h = elim (Bool-cases (same_manifest db s start)) [
    | inr other ↦ rw other tt
    | inl same ↦ rw same h
  ]

  ended_creating :
      (start : NormalStart) (db : Db)
      → HasEnded run_id run db.runs
      → StillEnded run_id run (create_in_transaction start db)
  unfolding create_in_transaction
  ended_creating start db h =
      ended_create (finished_snapshot (read_snapshot db start.run_id)) start db h

  pub create-HasEnded :
      (start : RefreshRunStart) (db : Db)
      → HasEnded run_id run db.runs
      → HasEnded run_id run (create_or_resume_run start db).1.runs
  unfolding create_or_resume_run
  create-HasEnded start db h =
      parsed-HasEnded run_id run db (normalize_start start) (λ normal. create_in_transaction normal)
        h (λ normal. ended_creating normal db h)
