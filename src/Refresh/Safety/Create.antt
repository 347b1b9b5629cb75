-- ===== src/Refresh/Safety/Create.antt =====
-- Creating or resuming a run, and the invariant on claims.
use x_bray.Base.{
  ℕ, true, Option, none, some, ◌≡◌, refl, ◌∙◌, inl, inr, arith, find_where, Bool-cases,
  Option-cases,
}
use x_bray.Refresh.Models.{RefreshRunSnapshot, Db, is_running}
use x_bray.Refresh.Transaction.{Result, ok, err, ◌>>=◌, is_run, read_snapshot}
use x_bray.Refresh.Items.Claims.{is_owner}
use x_bray.Refresh.Lifecycle.Manifest.{NormalStart, same_manifest}
use x_bray.Refresh.Lifecycle.Insert.{insert_run}
use x_bray.Refresh.Lifecycle.Create.{
  acquire_lease, release_previous, delete_lease, resume_or_insert, run_under_lease,
  finished_snapshot, snapshot_or_raise, take_lease, resume_finished, create_in_transaction,
}
use x_bray.Refresh.Safety.Exclusive.{
  found_running, IsExclusive, ExclusiveClaims-idle, Leaves, idle_of_finished,
}
use x_bray.Refresh.Safety.Takeover.{LeavesAcquired, release_previous-LeavesAcquired}
use x_bray.Refresh.Safety.Insert.{LeavesRun, insert_run-LeavesRun}

snapshot_or_raise-Leaves :
    (start : NormalStart) (now : ℕ) (r : Result Db)
    → LeavesRun now r
    → Leaves now (r >>= λ db. snapshot_or_raise (read_snapshot db start.run_id) start db)
snapshot_or_raise-Leaves start now (ok db) e = elim (Option-cases (read_snapshot db start.run_id)) [
  | inl missing ↦ rw missing tt
  | inr (snapshot, found) ↦ rw found e
]
snapshot_or_raise-Leaves start now (err x) e = tt

module _ (start : NormalStart) (now : ℕ) (db : Db) (owns : is_owner start.run_id db.lease ≡ true)
    (e : IsExclusive now db) where
  resume-Leaves :
      (existing : RefreshRunSnapshot)
      → found_running (find_where (is_run start.run_id) db.runs) ≡ is_running existing.run.state
      → Leaves now (resume_or_insert (some existing) start db)
  resume-Leaves existing h = elim (Bool-cases (same_manifest db existing start)) [
    | inr other ↦ rw other tt
    | inl same ↦ elim (Bool-cases (is_running existing.run.state)) [
      | inl running ↦ rw (same, running) e
      | inr finished ↦
          rw (same, finished)
            (ExclusiveClaims-idle now db.runs (delete_lease start.run_id db.lease) db.items e.keyed
              (idle_of_finished start.run_id owns (h ∙ finished) e))
    ]
  ]

  insert-Leaves : Leaves now (resume_or_insert none start db)
  insert-Leaves =
      snapshot_or_raise-Leaves start now (insert_run start db) (insert_run-LeavesRun start now db e)

  resume_or_insert-Leaves :
      (found : Option RefreshRunSnapshot)
      → read_snapshot db start.run_id ≡ found
      → Leaves now (resume_or_insert found start db)
  unfolding read_snapshot
  resume_or_insert-Leaves none h = insert-Leaves
  resume_or_insert-Leaves (some existing) h =
      resume-Leaves existing (elim (Option-cases (find_where (is_run start.run_id) db.runs)) [
        | inl missing ↦ ground (arith, h, missing)
        | inr (run, found) ↦ ground (arith, h, found)
      ])

acquired-Leaves :
    (start : NormalStart) (now : ℕ) (r : Result Db)
    → LeavesAcquired now start r
    → Leaves now (r >>= λ db. take_lease start db)
acquired-Leaves start now (err x) a = tt
acquired-Leaves start now (ok db) a = elim (Bool-cases (acquire_lease db.lease start).0) [
  | inr refused ↦ rw refused tt
  | inl got ↦ rw got (
      resume_or_insert-Leaves start now (record db { lease = (acquire_lease db.lease start).1 })
        (a.owner got) (a.exclusive got)
        (read_snapshot (record db { lease = (acquire_lease db.lease start).1 }) start.run_id) refl)
]

run_under_lease-Leaves :
    (start : NormalStart) (db : Db)
    → IsExclusive start.now db
    → Leaves start.now (run_under_lease start db)
unfolding run_under_lease
run_under_lease-Leaves start db e =
    acquired-Leaves start start.now (release_previous db.lease start db)
      (release_previous-LeavesAcquired start db db.lease refl e)

resume_finished-Leaves :
    (start : NormalStart) (db : Db) (finished : Option RefreshRunSnapshot)
    → IsExclusive start.now db
    → Leaves start.now (resume_finished finished start db)
resume_finished-Leaves start db none e = run_under_lease-Leaves start db e
resume_finished-Leaves start db (some existing) e =
    elim (Bool-cases (same_manifest db existing start)) [
      | inl same ↦ rw same e
      | inr other ↦ rw other tt
    ]

pub create_in_transaction-Leaves :
    (start : NormalStart) (db : Db)
    → IsExclusive start.now db
    → Leaves start.now (create_in_transaction start db)
unfolding create_in_transaction
create_in_transaction-Leaves start db e =
    resume_finished-Leaves start db (finished_snapshot (read_snapshot db start.run_id)) e
