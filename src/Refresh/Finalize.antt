-- ===== src/Refresh/Finalize.antt =====
-- backend/db/refresh_run_finalize.py: the cutoffs of a run, and its finalization, which gives the
-- daily lease back.
use x_bray.Base.{
  ℕ, String, Bool, true, false, Option, none, some, List, ◌==◌, ◌&&◌, ◌||◌, not, leb, ltb, nat_eq,
  is_none, update_where, find_where, any_where, count_where, if◌then◌else◌,
}
use x_bray.Refresh.Models.{
  RefreshRunCutoffPhase, derived, macro_score, RefreshRunFinalState, RefreshWorkItemRecord,
  RefreshRunRecord, RefreshRunCutoffUpdate, RefreshRunFinalization, Lease, Db, is_running,
  is_pending, is_claimed, is_failed, is_succeeded, final_run_state, max_work_item_attempts,
}
use x_bray.Refresh.Transaction.{
  persistence, lease_conflict, cutoff_order, Result, ok, err, ◌>>=◌, ◌>>◌, raise_if, Tx,
  transaction, utc_iso, optional_utc_iso, is_run, in_run,
}
use x_bray.Refresh.RetryPolicy.{failed_work_item_is_retryable}
use x_bray.Refresh.Items.Claims.{is_owner, has_live_lease, is_running_run}

abbrev pub column_of : RefreshRunCutoffPhase → RefreshRunRecord → Option ℕ
column_of derived run = run.derived_cutoff
column_of macro_score run = run.macro_cutoff

abbrev pub set_column : RefreshRunCutoffPhase → ℕ → ℕ → RefreshRunRecord → RefreshRunRecord
set_column derived cutoff now row = record row { derived_cutoff = some cutoff; updated_at = now }
set_column macro_score cutoff now row = record row { macro_cutoff = some cutoff; updated_at = now }

-- `match update.phase`: the macro score's cutoff wants a derived cutoff that is not later.
abbrev pub check_phase : RefreshRunCutoffPhase → String → ℕ → RefreshRunRecord → Result (Unit {0})
check_phase derived run_id cutoff run = ok tt
check_phase macro_score run_id cutoff run = elim run.derived_cutoff [
  | none ↦ err (cutoff_order run_id)
  | some derived_cutoff ↦ raise_if (ltb cutoff derived_cutoff) (persistence run_id)
]

abbrev pub is_unset : RefreshRunCutoffPhase → String → RefreshRunRecord → Bool
is_unset phase run_id row = is_running_run run_id row && is_none (column_of phase row)

abbrev pub renew_lease : String → ℕ → ℕ → Option Lease → Option Lease
renew_lease run_id now expires_at none = none
renew_lease run_id now expires_at (some lease) =
    if lease.owner == run_id && ltb now lease.expires_at
    then some (record lease {
      expires_at = if ltb lease.expires_at expires_at then expires_at else lease.expires_at;
    })
    else some lease

-- The stored cutoff wins; a new one is written only where there is none.
abbrev pub store_cutoff :
    Option ℕ
    → RefreshRunCutoffPhase
    → String
    → ℕ
    → ℕ
    → List RefreshRunRecord
    → ℕ × List RefreshRunRecord
store_cutoff (some persisted) phase run_id cutoff now runs = (persisted, runs)
store_cutoff none phase run_id cutoff now runs =
    (cutoff, update_where (is_unset phase run_id) (set_column phase cutoff now) runs)

abbrev pub cutoff_for_run :
    Option RefreshRunRecord → RefreshRunCutoffPhase → String → ℕ → ℕ → ℕ → Tx ℕ
cutoff_for_run none phase run_id cutoff now expires_at db = err (persistence run_id)
cutoff_for_run (some run) phase run_id cutoff now expires_at db = do
  raise_if (not (is_running run.state)) (persistence run_id)
  check_phase phase run_id cutoff run
  let (persisted, runs) = store_cutoff (column_of phase run) phase run_id cutoff now db.runs
  ok (persisted, record db { runs = runs; lease = renew_lease run_id now expires_at db.lease })

abbrev pub cutoff_under_lease : Option Lease → RefreshRunCutoffPhase → String → ℕ → ℕ → ℕ → Tx ℕ
cutoff_under_lease none phase run_id cutoff now expires_at db = err (persistence run_id)
cutoff_under_lease (some lease) phase run_id cutoff now expires_at db =
    if not (lease.owner == run_id) || leb lease.expires_at now
    then err (lease_conflict run_id lease.owner)
    else cutoff_for_run (find_where (is_run run_id) db.runs) phase run_id cutoff now expires_at db

unfoldable pub cutoff_in_transaction : RefreshRunCutoffPhase → String → ℕ → ℕ → ℕ → Tx ℕ
cutoff_in_transaction phase run_id cutoff now expires_at db =
    cutoff_under_lease db.lease phase run_id cutoff now expires_at db

abbrev cutoff_field : RefreshRunCutoffPhase → String
cutoff_field derived = "derived_cutoff"
cutoff_field macro_score = "macro_score_cutoff"

unfoldable pub cutoff_times : RefreshRunCutoffUpdate → Result (ℕ × ℕ × ℕ)
unfolding utc_iso
cutoff_times update = do
  cutoff ← utc_iso update.cutoff (cutoff_field update.phase)
  now ← utc_iso update.now "now"
  lease_expires_at ← utc_iso update.lease_expires_at "lease_expires_at"
  raise_if (leb lease_expires_at now) (persistence update.run_id)
  ok (cutoff, now, lease_expires_at)

unfoldable pub persist_run_cutoff : RefreshRunCutoffUpdate → Db → Result ℕ × Db
unfolding cutoff_times cutoff_in_transaction transaction
persist_run_cutoff update = transaction (
    cutoff_times update >>= λ times.
    ok (cutoff_in_transaction update.phase update.run_id times.0 times.1 times.2))

-- What keeps a run from its end: a claim, a pending item (in v6, one that was not deferred), or a
-- failed item that may be tried again.
abbrev pub is_unfinished : Bool → String → RefreshWorkItemRecord → Bool
is_unfinished is_v6 run_id row =
    in_run run_id row
    && (is_claimed row.status
        || (is_pending row.status && (not is_v6 || is_none row.deferral_reason)))

abbrev pub is_retryable_failure : Bool → String → RefreshWorkItemRecord → Bool
is_retryable_failure is_v6 run_id row =
    in_run run_id row
    && is_failed row.status
    && (if is_v6
        then failed_work_item_is_retryable row.task row.last_error_category row.acquisition_attempts
            row.attempt max_work_item_attempts
        else ltb row.attempt max_work_item_attempts)

abbrev pub is_not_succeeded : String → RefreshWorkItemRecord → Bool
is_not_succeeded run_id row = in_run run_id row && not (is_succeeded row.status)

abbrev pub wants_success : RefreshRunFinalState → Bool
wants_success RefreshRunFinalState.succeeded = true
wants_success _ = false

unfoldable pub is_finalizable :
    RefreshRunFinalState → String → String → List RefreshWorkItemRecord → Bool
is_finalizable state version run_id items =
    let is_v6 = version == "daily-refresh-v6" in
    not (any_where (is_unfinished is_v6 run_id) items)
    && not (any_where (is_retryable_failure is_v6 run_id) items)
    && not (wants_success state && any_where (is_not_succeeded run_id) items)

abbrev pub finalized_run : RefreshRunFinalization → ℕ → RefreshRunRecord → RefreshRunRecord
finalized_run finalization finished_at row = record row {
  state = final_run_state finalization.state;
  updated_at = finished_at;
  finished_at = some finished_at;
  final_result = some finalization.final_result;
}

-- `INSERT INTO meta … ON CONFLICT DO UPDATE`, if there is a value.
abbrev pub set_last_update : Option ℕ → Option ℕ → Option ℕ
set_last_update none old = old
set_last_update (some t) old = some t

abbrev pub finalize_found :
    Option RefreshRunRecord → RefreshRunFinalization → ℕ → Option ℕ → Tx Bool
finalize_found none finalization finished_at last_update db = ok (false, db)
finalize_found (some run) finalization finished_at last_update db =
    let run_id = finalization.run_id in
    if not (is_running run.state)
    then ok (false, db)
    else if not (is_finalizable finalization.state run.manifest_version run_id db.items)
    then ok (false, db)
    else let db' = record db {
      runs = update_where (is_running_run run_id) (finalized_run finalization finished_at) db.runs;
    } in
      if not (nat_eq (count_where (is_running_run run_id) db.runs) 1)
      then ok (false, db')
      else if not (is_owner run_id db.lease)
      then err (persistence run_id)
      else ok (
        true,
        record db' {
          lease = none;
          last_successful_update = set_last_update last_update db.last_successful_update;
        },
      )

unfoldable pub finalize_in_transaction : RefreshRunFinalization → ℕ → Option ℕ → Tx Bool
finalize_in_transaction finalization finished_at last_update db =
    if not (has_live_lease db.lease finalization.run_id finished_at)
    then ok (false, db)
    else finalize_found (find_where (is_run finalization.run_id) db.runs) finalization finished_at
        last_update db

unfoldable pub finalize_times : RefreshRunFinalization → Result (ℕ × Option ℕ)
unfolding utc_iso
finalize_times finalization = do
  finished_at ← utc_iso finalization.finished_at "finished_at"
  last_update ← optional_utc_iso finalization.last_successful_update "last_successful_update"
  ok (finished_at, last_update)

unfoldable pub finalize_and_release_run : RefreshRunFinalization → Db → Result Bool × Db
unfolding finalize_times finalize_in_transaction is_finalizable transaction
finalize_and_release_run finalization = transaction (
    finalize_times finalization >>= λ times.
    ok (finalize_in_transaction finalization times.0 times.1))
