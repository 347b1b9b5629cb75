-- ===== src/Refresh/Safety/Finalize.antt =====
-- Cutoffs and finalizations, and the invariant on claims.
use x_bray.Base.{
  ℕ, String, true, Option, none, some, List, ◌≡◌, refl, ◌==◌, ◌||◌, not, inl, inr, arith, nat_eq,
  leb, update_where, count_where, find_where, count_where_mono, count_where-eq_zero_of_any,
  find_where-update, Bool-cases,
}
use x_bray.Refresh.Models.{
  RefreshRunCutoffPhase, derived, macro_score, RefreshRunFinalization, RefreshRunRecord, Lease, Db,
  is_running,
}
use x_bray.Refresh.Transaction.{Result, ok, err, ◌>>◌, raise_if, persistence, is_run}
use x_bray.Refresh.Items.Claims.{
  is_live_claim, live_in_run, is_owner, has_live_lease, is_running_run,
}
use x_bray.Refresh.Finalize.{
  is_unset, set_column, column_of, check_phase, renew_lease, store_cutoff, cutoff_for_run,
  cutoff_under_lease, cutoff_in_transaction, is_unfinished, is_finalizable, finalized_run,
  finalize_found, finalize_in_transaction,
}
use x_bray.Refresh.Safety.Exclusive.{
  found_running, IsExclusive, ExclusiveClaims-idle, ExclusiveClaims-grow, live-le, Leaves,
  same_owner, has_live_lease-is_owner,
}

renew_lease-owner :
    (run_id x : String) (now expires_at : ℕ) (lease : Option Lease)
    → is_owner x (renew_lease run_id now expires_at lease) ≡ is_owner x lease
renew_lease-owner run_id x now expires_at none = refl
renew_lease-owner run_id x now expires_at (some lease) = ground arith

set_column-running :
    (phase : RefreshRunCutoffPhase) (run_id x : String) (cutoff now : ℕ)
    (runs : List RefreshRunRecord)
    → found_running (
        find_where
          (is_run x)
          (update_where (is_unset phase run_id) (set_column phase cutoff now) runs))
      ≡ found_running (find_where (is_run x) runs)
set_column-running derived run_id x cutoff now runs = ground (
  arith,
  find_where-update (is_run x) (is_unset derived run_id) (set_column derived cutoff now) runs
      (λ r. refl),
)
set_column-running macro_score run_id x cutoff now runs = ground (
  arith,
  find_where-update (is_run x) (is_unset macro_score run_id) (set_column macro_score cutoff now)
      runs (λ r. refl),
)

store_cutoff-running :
    (persisted : Option ℕ) (phase : RefreshRunCutoffPhase) (run_id x : String) (cutoff now : ℕ)
    (runs : List RefreshRunRecord)
    → found_running (find_where (is_run x) (store_cutoff persisted phase run_id cutoff now runs).1)
      ≡ found_running (find_where (is_run x) runs)
store_cutoff-running none phase run_id x cutoff now runs =
    set_column-running phase run_id x cutoff now runs
store_cutoff-running (some t) phase run_id x cutoff now runs = refl

-- A guard in front of a body that keeps claims exclusive.
guard-Leaves {ℓ} :
    {A : Type ℓ} (now : ℕ) (check : Result (Unit {0})) (body : Result (A × Db))
    → Leaves now body
    → Leaves now (check >> body)
guard-Leaves now (ok u) body h = h
guard-Leaves now (err e) body h = tt

module _ (phase : RefreshRunCutoffPhase) (run_id : String) (cutoff at expires_at now : ℕ) (db : Db)
    (e : IsExclusive now db) where
  cutoff_for_run-Leaves :
      (found : Option RefreshRunRecord)
      → Leaves now (cutoff_for_run found phase run_id cutoff at expires_at db)
  cutoff_for_run-Leaves none = tt
  cutoff_for_run-Leaves (some run) =
      let stored = store_cutoff (column_of phase run) phase run_id cutoff at db.runs in
      guard-Leaves now (raise_if (not (is_running run.state)) (persistence run_id)) _ (
        guard-Leaves now (check_phase phase run_id cutoff run) _ (
          ExclusiveClaims-grow now db.runs stored.1 db.lease
            (renew_lease run_id at expires_at db.lease) db.items
            (λ x held. ground (
              arith,
              held,
              renew_lease-owner run_id x at expires_at db.lease,
              store_cutoff-running (column_of phase run) phase run_id x cutoff at db.runs,
            ))
            e))

  cutoff_under_lease-Leaves :
      (lease : Option Lease)
      → Leaves now (cutoff_under_lease lease phase run_id cutoff at expires_at db)
  cutoff_under_lease-Leaves none = tt
  cutoff_under_lease-Leaves (some lease) =
      elim (Bool-cases (not (lease.owner == run_id) || leb lease.expires_at at)) [
        | inl lost ↦ rw lost tt
        | inr leased ↦ rw leased (cutoff_for_run-Leaves (find_where (is_run run_id) db.runs))
      ]

  pub cutoff_in_transaction-Leaves :
      Leaves now (cutoff_in_transaction phase run_id cutoff at expires_at db)
  unfolding cutoff_in_transaction
  cutoff_in_transaction-Leaves = cutoff_under_lease-Leaves db.lease

module _ (finalization : RefreshRunFinalization) (finished_at now : ℕ) (last_update : Option ℕ)
    (db : Db) (owns : is_owner finalization.run_id db.lease ≡ true) (e : IsExclusive now db) where
  -- A run that may be finalized has no claim, live or lapsed.
  finalizable-idle :
      (version : String)
      → is_finalizable finalization.state version finalization.run_id db.items ≡ true
      → count_where (is_live_claim now) db.items ≡ 0
  unfolding is_finalizable
  finalizable-idle version h =
      let unfinished = is_unfinished (version == "daily-refresh-v6") finalization.run_id in
      omega (
        arith,
        count_where-eq_zero_of_any unfinished db.items (ground arith),
        count_where_mono (live_in_run finalization.run_id now) unfinished db.items
            (λ row live. ground arith),
        live-le e finalization.run_id
            (λ row held. ground (arith, same_owner db.lease row.run_id finalization.run_id)),
      )

  finalize_found-Leaves :
      (found : Option RefreshRunRecord)
      → Leaves now (finalize_found found finalization finished_at last_update db)
  finalize_found-Leaves none = e
  finalize_found-Leaves (some run) = elim (Bool-cases (is_running run.state)) [
    | inr finished ↦ rw finished e
    | inl running ↦
        elim (Bool-cases
          (is_finalizable finalization.state run.manifest_version finalization.run_id db.items)) [
            | inr open_items ↦ rw (running, open_items) e
            | inl closed_items ↦
                let idle = finalizable-idle run.manifest_version closed_items in
                let runs' =
                  update_where (is_running_run finalization.run_id)
                    (finalized_run finalization finished_at) db.runs in
                elim (Bool-cases
                  (nat_eq (count_where (is_running_run finalization.run_id) db.runs) 1)) [
                    | inr missed ↦
                        rw (running, closed_items, missed)
                          (ExclusiveClaims-idle now runs' db.lease db.items e.keyed idle)
                    | inl changed ↦
                        rw (running, closed_items, changed, owns)
                          (ExclusiveClaims-idle now runs' none db.items e.keyed idle)
                  ]
          ]
  ]

pub finalize_in_transaction-Leaves :
    (finalization : RefreshRunFinalization) (finished_at now : ℕ) (last_update : Option ℕ) (db : Db)
    → IsExclusive now db
    → Leaves now (finalize_in_transaction finalization finished_at last_update db)
unfolding finalize_in_transaction
finalize_in_transaction-Leaves finalization finished_at now last_update db e =
    elim (Bool-cases (has_live_lease db.lease finalization.run_id finished_at)) [
      | inr lost ↦ rw lost e
      | inl leased ↦ rw leased (
          finalize_found-Leaves finalization finished_at now last_update db
            (has_live_lease-is_owner db.lease finalization.run_id finished_at leased) e
            (find_where (is_run finalization.run_id) db.runs))
    ]
