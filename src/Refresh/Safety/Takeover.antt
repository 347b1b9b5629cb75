-- ===== src/Refresh/Safety/Takeover.antt =====
-- Taking the daily lease over, and the invariant on claims.
use x_bray.Base.{
  ℕ, ◌≤◌, String, true, false, Option, none, some, List, ◌≡◌, refl, subst, ◌==◌, ◌&&◌, not, inl,
  inr, arith, eq_iff, eq_refl, leb, count_where, find_where, any_where, count_where-eq_zero_of_any,
  Bool-cases,
}
use x_bray.Refresh.Models.{RefreshRunRecord, Lease, Db, is_running}
use x_bray.Refresh.Transaction.{Result, ok, err, is_run, is_item}
use x_bray.Refresh.Items.Claims.{is_live_claim, live_in_run, is_owner}
use x_bray.Refresh.Lifecycle.Manifest.{NormalStart}
use x_bray.Refresh.Lifecycle.Abandon.{
  is_open_item, abandoned_item, fail_run, abandon_found, abandon_expired_run,
}
use x_bray.Refresh.Lifecycle.Create.{acquire_lease, release_previous}
use x_bray.Refresh.Safety.Exclusive.{
  found_running, ExclusiveClaims, IsExclusive, IsQuiet, keyed-update, live-update,
  ExclusiveClaims-idle, ExclusiveClaims-grow, live-le, same_owner, idle_of_finished,
  idle_of_no_lease,
}

abandoned_item-IsQuiet : (at now : ℕ) → IsQuiet now (abandoned_item at)
abandoned_item-IsQuiet at now = record {
  run_id = λ row. refl;
  item_key = λ row. refl;
  live = λ row h. ground arith;
}

-- Exclusive claims of which none is live, whatever becomes of the runs and the lease.
pub record IsFree (now : ℕ) (db : Db) : Type 0 where
  keyed : (run_id item_key : String) → count_where (is_item run_id item_key) db.items ≤ 1
  idle : count_where (is_live_claim now) db.items ≡ 0

IsFree-exclusive :
    (now : ℕ) (db : Db) (runs : List RefreshRunRecord) (lease : Option Lease)
    → IsFree now db
    → ExclusiveClaims now runs lease db.items
IsFree-exclusive now db runs lease f = ExclusiveClaims-idle now runs lease db.items f.keyed f.idle

fail_run-IsFree :
    (owner : String) (at now : ℕ) (db : Db) → IsFree now db → IsFree now (fail_run owner at db)
unfolding fail_run
fail_run-IsFree owner at now db f = record {
  keyed = λ r k. omega (
    arith,
    f.keyed r k,
    keyed-update (is_open_item owner) (abandoned_item at) db.items (λ row. refl) (λ row. refl) r k,
  );
  idle = omega (
    arith,
    f.idle,
    live-update (is_open_item owner) (abandoned_item at) db.items now
        (abandoned_item-IsQuiet at now),
  );
}

abbrev LeavesFree : ℕ → Result Db → Type 0
LeavesFree now (ok db) = IsFree now db
LeavesFree now (err e) = Unit

module _ (owner new_owner : String) (now : ℕ) (db : Db) (owns : is_owner owner db.lease ≡ true)
    (e : IsExclusive now db) where
  IsFree-of_finished : found_running (find_where (is_run owner) db.runs) ≡ false → IsFree now db
  IsFree-of_finished h = record { keyed = e.keyed; idle = idle_of_finished owner owns h e }

  IsFree-of_none_live : any_where (live_in_run owner now) db.items ≡ false → IsFree now db
  IsFree-of_none_live h = record {
    keyed = e.keyed;
    idle = omega (
      arith,
      count_where-eq_zero_of_any (live_in_run owner now) db.items h,
      live-le e owner (λ row held. ground (arith, same_owner db.lease row.run_id owner)),
    );
  }

  abandon_found-LeavesFree :
      (found : Option RefreshRunRecord)
      → find_where (is_run owner) db.runs ≡ found
      → LeavesFree now (abandon_found found owner now new_owner db)
  abandon_found-LeavesFree none h = IsFree-of_finished (rw h)
  abandon_found-LeavesFree (some run) h = elim (Bool-cases (is_running run.state)) [
    | inr finished ↦ rw finished (IsFree-of_finished (rw h finished))
    | inl running ↦ elim (Bool-cases (any_where (live_in_run owner now) db.items)) [
      | inl live ↦ rw (running, live) tt
      | inr none_live ↦
          rw (running, none_live) (fail_run-IsFree owner now now db (IsFree-of_none_live none_live))
    ]
  ]

-- After the lease is acquired from this database, claims are exclusive and the run owns it.
pub record Acquires (now : ℕ) (start : NormalStart) (db : Db) : Type 0 where
  pub owner :
      (acquire_lease db.lease start).0 ≡ true
      → is_owner start.run_id (acquire_lease db.lease start).1 ≡ true
  pub exclusive :
      (acquire_lease db.lease start).0 ≡ true
      → ExclusiveClaims now db.runs (acquire_lease db.lease start).1 db.items

abbrev pub LeavesAcquired : ℕ → NormalStart → Result Db → Type 0
LeavesAcquired now start (ok db) = Acquires now start db
LeavesAcquired now start (err e) = Unit

acquire_lease-owner :
    (lease : Option Lease) (start : NormalStart)
    → (acquire_lease lease start).0 ≡ true
    → is_owner start.run_id (acquire_lease lease start).1 ≡ true
unfolding acquire_lease
acquire_lease-owner none start h = eq_refl start.run_id
acquire_lease-owner (some lease) start h = ground (arith, eq_refl start.run_id)

IsFree-Acquires : (now : ℕ) (start : NormalStart) (db : Db) → IsFree now db → Acquires now start db
IsFree-Acquires now start db f = record {
  owner = acquire_lease-owner db.lease start;
  exclusive = λ h. IsFree-exclusive now db db.runs (acquire_lease db.lease start).1 f;
}

LeavesFree-Acquires :
    (now : ℕ) (start : NormalStart) (r : Result Db) → LeavesFree now r → LeavesAcquired now start r
LeavesFree-Acquires now start (ok db) f = IsFree-Acquires now start db f
LeavesFree-Acquires now start (err e) f = tt

-- A lease of one's own, or one that cannot be had yet.
kept_lease-Acquires :
    (start : NormalStart) (now : ℕ) (db : Db) (lease : Lease)
    → db.lease ≡ some lease
    → (not (lease.owner == start.run_id) && leb lease.expires_at start.now) ≡ false
    → IsExclusive now db
    → Acquires now start db
unfolding acquire_lease
kept_lease-Acquires start now db lease h kept e = record {
  owner = acquire_lease-owner db.lease start;
  exclusive = λ got.
      ExclusiveClaims-grow now db.runs db.runs db.lease (acquire_lease db.lease start).1 db.items
        (λ x held. ground (
          arith,
          h,
          kept,
          got,
          held,
          eq_iff lease.owner start.run_id,
          eq_iff lease.owner x,
          eq_iff start.run_id x,
        ))
        e;
}

pub release_previous-LeavesAcquired :
    (start : NormalStart) (db : Db) (lease : Option Lease)
    → db.lease ≡ lease
    → IsExclusive start.now db
    → LeavesAcquired start.now start (release_previous lease start db)
unfolding abandon_expired_run
release_previous-LeavesAcquired start db none h e = IsFree-Acquires start.now start db (record {
  keyed = e.keyed;
  idle = idle_of_no_lease (subst (λ l. ExclusiveClaims start.now db.runs l db.items) h e);
})
release_previous-LeavesAcquired start db (some lease) h e =
    elim (Bool-cases (not (lease.owner == start.run_id) && leb lease.expires_at start.now)) [
      | inr kept ↦ rw kept (kept_lease-Acquires start start.now db lease h kept e)
      | inl expired ↦ rw expired (
          LeavesFree-Acquires start.now start _ (
            abandon_found-LeavesFree lease.owner start.run_id start.now db
              (rw h (eq_refl lease.owner)) e (find_where (is_run lease.owner) db.runs) refl))
    ]
