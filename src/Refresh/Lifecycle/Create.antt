-- ===== src/Refresh/Lifecycle/Create.antt =====
-- `_acquire_lease` and `create_or_resume_run`.
use x_bray.Base.{
  String, Bool, true, false, Option, none, some, ◌==◌, ◌&&◌, ◌||◌, not, leb, ltb, if◌then◌else◌,
}
use x_bray.Refresh.Models.{RefreshRunStart, RefreshRunSnapshot, Lease, Db, is_running}
use x_bray.Refresh.Transaction.{
  Error, input_error, lease_conflict, idempotency, persistence, Result, ok, err, ◌>>=◌, ◌>>◌,
  raise_if, Tx, transaction, utc_iso, optional_utc_iso, read_snapshot,
}
use x_bray.Refresh.Lifecycle.Manifest.{NormalStart, same_manifest}
use x_bray.Refresh.Lifecycle.Insert.{insert_run, insert_items}
use x_bray.Refresh.Lifecycle.Abandon.{abandon_expired_run, fail_run}

-- The lease row after the INSERT … ON CONFLICT … WHERE, and whether a row was written.
unfoldable pub acquire_lease : Option Lease → NormalStart → Bool × Option Lease
acquire_lease none start =
    (true, some (record { owner = start.run_id; expires_at = start.lease_expires_at }))
acquire_lease (some lease) start =
    if lease.owner == start.run_id || leb lease.expires_at start.now
    then (
      true,
      some (record {
        owner = start.run_id;
        expires_at =
            if ltb lease.expires_at start.lease_expires_at
            then start.lease_expires_at
            else lease.expires_at;
      }),
    )
    else (false, some lease)

abbrev lease_owner_error : String → Option Lease → Error
lease_owner_error run_id none = persistence run_id
lease_owner_error run_id (some lease) = lease_conflict run_id lease.owner

-- The lease of another run that has expired.
abbrev pub release_previous : Option Lease → NormalStart → Db → Result Db
release_previous none start db = ok db
release_previous (some lease) start db =
    if not (lease.owner == start.run_id) && leb lease.expires_at start.now
    then abandon_expired_run lease.owner start.now start.run_id db
    else ok db

abbrev pub delete_lease : String → Option Lease → Option Lease
delete_lease run_id none = none
delete_lease run_id (some lease) = if lease.owner == run_id then none else some lease

abbrev pub snapshot_or_raise : Option RefreshRunSnapshot → NormalStart → Tx RefreshRunSnapshot
snapshot_or_raise none start db = err (persistence start.run_id)
snapshot_or_raise (some snapshot) start db = ok (snapshot, db)

-- With the lease held: the stored run, or a new one.
abbrev pub resume_or_insert : Option RefreshRunSnapshot → NormalStart → Tx RefreshRunSnapshot
resume_or_insert (some existing) start db =
    if not (same_manifest db existing start)
    then err (idempotency start.run_id)
    else if is_running existing.run.state
    then ok (existing, db)
    else ok (existing, record db { lease = delete_lease start.run_id db.lease })
resume_or_insert none start db =
    insert_run start db >>= λ db'. snapshot_or_raise (read_snapshot db' start.run_id) start db'

-- `_acquire_lease`, then a second look at the run under the lease.
abbrev pub take_lease : NormalStart → Tx RefreshRunSnapshot
take_lease start db =
    let (acquired, lease) = acquire_lease db.lease start in
    let db' = record db { lease = lease } in
    if acquired
    then resume_or_insert (read_snapshot db' start.run_id) start db'
    else err (lease_owner_error start.run_id lease)

unfoldable pub run_under_lease : NormalStart → Tx RefreshRunSnapshot
run_under_lease start db = release_previous db.lease start db >>= λ db'. take_lease start db'

abbrev pub finished_snapshot : Option RefreshRunSnapshot → Option RefreshRunSnapshot
finished_snapshot none = none
finished_snapshot (some s) = if is_running s.run.state then none else some s

-- A run that has finished is returned as it is stored.
abbrev pub resume_finished : Option RefreshRunSnapshot → NormalStart → Tx RefreshRunSnapshot
resume_finished none start db = run_under_lease start db
resume_finished (some existing) start db =
    if same_manifest db existing start then ok (existing, db) else err (idempotency start.run_id)

unfoldable pub create_in_transaction : NormalStart → Tx RefreshRunSnapshot
create_in_transaction start db =
    resume_finished (finished_snapshot (read_snapshot db start.run_id)) start db

unfoldable pub normalize_start : RefreshRunStart → Result NormalStart
unfolding utc_iso
normalize_start start = do
  now ← utc_iso start.now "now"
  expires_at ← utc_iso start.lease_expires_at "lease_expires_at"
  derived ← optional_utc_iso start.derived_cutoff "derived_cutoff"
  macro ← optional_utc_iso start.macro_cutoff "macro_cutoff"
  raise_if (leb expires_at now) (input_error "lease_expires_at")
  ok (record {
    run_id = start.run_id;
    cycle_id = start.cycle_id;
    force = start.force;
    manifest_version = start.manifest_version;
    derived_cutoff = derived;
    macro_cutoff = macro;
    items = start.items;
    now = now;
    lease_expires_at = expires_at;
    sgs_plan = start.sgs_plan;
  })

unfoldable pub create_or_resume_run : RefreshRunStart → Db → Result RefreshRunSnapshot × Db
unfolding normalize_start create_in_transaction run_under_lease abandon_expired_run fail_run
    acquire_lease same_manifest insert_run insert_items read_snapshot transaction
create_or_resume_run start =
    transaction (normalize_start start >>= λ normal. ok (create_in_transaction normal))
