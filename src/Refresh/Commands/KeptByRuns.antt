-- ===== src/Refresh/Commands/KeptByRuns.antt =====
-- Cutoffs and finalizations, and the row of a run that has ended.
use x_bray.Base.{
  ℕ, String, Option, none, some, refl, ◌==◌, ◌||◌, not, inl, inr, arith, nat_eq, leb, count_where,
  find_where, Bool-cases,
}
use x_bray.Refresh.Models.{
  RefreshRunCutoffPhase, derived, macro_score, RefreshRunRecord, RefreshRunFinalization, Lease, Db,
  is_running, RefreshRunCutoffUpdate,
}
use x_bray.Refresh.Transaction.{Result, ok, err, ◌>>◌, raise_if, is_run, persistence}
use x_bray.Refresh.Items.Claims.{is_running_run, has_live_lease, is_owner}
use x_bray.Refresh.Finalize.{
  is_unset, set_column, column_of, check_phase, store_cutoff, cutoff_for_run, cutoff_under_lease,
  cutoff_in_transaction, cutoff_times, persist_run_cutoff, is_finalizable, finalized_run,
  finalize_found, finalize_in_transaction, finalize_times, finalize_and_release_run,
}
use x_bray.Refresh.Commands.History.{HasEnded, HasEnded-update, StillEnded, parsed-HasEnded}

module _ (run_id : String) (run : RefreshRunRecord) (db : Db)
    (h : HasEnded run_id run db.runs) where
  ended_store :
      (persisted : Option ℕ) (phase : RefreshRunCutoffPhase) (id : String) (cutoff now : ℕ)
      → HasEnded run_id run (store_cutoff persisted phase id cutoff now db.runs).1
  ended_store (some t) phase id cutoff now = h
  ended_store none derived id cutoff now =
      HasEnded-update run_id run (is_unset derived id) (set_column derived cutoff now) db.runs
        (λ row k. ground arith) (λ row. refl) h
  ended_store none macro_score id cutoff now =
      HasEnded-update run_id run (is_unset macro_score id) (set_column macro_score cutoff now)
        db.runs (λ row k. ground arith) (λ row. refl) h

  ended_guard {ℓ} :
      {A : Type ℓ} (check : Result (Unit {0})) (body : Result (A × Db))
      → StillEnded run_id run body
      → StillEnded run_id run (check >> body)
  ended_guard (ok u) body b = b
  ended_guard (err e) body b = tt

  ended_cutoff :
      (phase : RefreshRunCutoffPhase) (id : String) (cutoff now expires_at : ℕ)
      (found : Option RefreshRunRecord)
      → StillEnded run_id run (cutoff_for_run found phase id cutoff now expires_at db)
  ended_cutoff phase id cutoff now expires_at none = tt
  ended_cutoff phase id cutoff now expires_at (some row) =
      ended_guard (raise_if (not (is_running row.state)) (persistence id)) _ (
        ended_guard (check_phase phase id cutoff row) _
          (ended_store (column_of phase row) phase id cutoff now))

  ended_cutoff_lease :
      (phase : RefreshRunCutoffPhase) (id : String) (cutoff now expires_at : ℕ)
      (lease : Option Lease)
      → StillEnded run_id run (cutoff_under_lease lease phase id cutoff now expires_at db)
  ended_cutoff_lease phase id cutoff now expires_at none = tt
  ended_cutoff_lease phase id cutoff now expires_at (some lease) =
      elim (Bool-cases (not (lease.owner == id) || leb lease.expires_at now)) [
        | inl lost ↦ rw lost tt
        | inr leased ↦
            rw leased (ended_cutoff phase id cutoff now expires_at (find_where (is_run id) db.runs))
      ]

  ended_cutting :
      (phase : RefreshRunCutoffPhase) (id : String) (cutoff now expires_at : ℕ)
      → StillEnded run_id run (cutoff_in_transaction phase id cutoff now expires_at db)
  unfolding cutoff_in_transaction
  ended_cutting phase id cutoff now expires_at =
      ended_cutoff_lease phase id cutoff now expires_at db.lease

  pub cutoff-HasEnded :
      (update : RefreshRunCutoffUpdate) → HasEnded run_id run (persist_run_cutoff update db).1.runs
  unfolding persist_run_cutoff
  cutoff-HasEnded update =
      parsed-HasEnded run_id run db (cutoff_times update)
        (λ times. cutoff_in_transaction update.phase update.run_id times.0 times.1 times.2) h
        (λ times. ended_cutting update.phase update.run_id times.0 times.1 times.2)

  ended_finalize :
      (finalization : RefreshRunFinalization) (at : ℕ) (last : Option ℕ)
      (found : Option RefreshRunRecord)
      → StillEnded run_id run (finalize_found found finalization at last db)
  ended_finalize finalization at last none = h
  ended_finalize finalization at last (some row) =
      let id = finalization.run_id in
      let kept =
        HasEnded-update run_id run (is_running_run id) (finalized_run finalization at) db.runs
          (λ row k. ground arith) (λ row. refl) h in
      elim (Bool-cases (is_running row.state)) [
        | inr finished ↦ rw finished h
        | inl running ↦
            elim (Bool-cases (is_finalizable finalization.state row.manifest_version id db.items)) [
              | inr unfinished ↦ rw (running, unfinished) h
              | inl final ↦ elim (Bool-cases (nat_eq (count_where (is_running_run id) db.runs) 1)) [
                | inr missed ↦ rw (running, final, missed) kept
                | inl changed ↦ elim (Bool-cases (is_owner id db.lease)) [
                  | inr lost ↦ rw (running, final, changed, lost) tt
                  | inl owns ↦ rw (running, final, changed, owns) kept
                ]
              ]
            ]
      ]

  ended_finalizing :
      (finalization : RefreshRunFinalization) (at : ℕ) (last : Option ℕ)
      → StillEnded run_id run (finalize_in_transaction finalization at last db)
  unfolding finalize_in_transaction
  ended_finalizing finalization at last =
      elim (Bool-cases (has_live_lease db.lease finalization.run_id at)) [
        | inr lost ↦ rw lost h
        | inl leased ↦
            rw leased (
              ended_finalize finalization at last (find_where (is_run finalization.run_id) db.runs))
      ]

  pub finalize-HasEnded :
      (finalization : RefreshRunFinalization)
      → HasEnded run_id run (finalize_and_release_run finalization db).1.runs
  unfolding finalize_and_release_run
  finalize-HasEnded finalization =
      parsed-HasEnded run_id run db (finalize_times finalization)
        (λ times. finalize_in_transaction finalization times.0 times.1) h
        (λ times. ended_finalizing finalization times.0 times.1)
