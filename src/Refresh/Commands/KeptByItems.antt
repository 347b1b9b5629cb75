-- ===== src/Refresh/Commands/KeptByItems.antt =====
-- Claims, deferrals and completions, and the row of a run that has ended.
use x_bray.Base.{
  ℕ, String, Option, none, some, List, ◌==◌, inl, inr, any_where, find_where, Bool-cases,
}
use x_bray.Refresh.Models.{
  RefreshRunRecord, RefreshWorkItemRecord, Db, is_running, RefreshWorkItemClaimRequest,
  RefreshWorkItemDeferral, RefreshWorkItemCompletion,
}
use x_bray.Refresh.Transaction.{Result, ok, err, utc_iso, is_run}
use x_bray.Refresh.Items.Claims.{has_live_lease, live_in_run, fail_exhausted_claims}
use x_bray.Refresh.Items.V6.{claim_chosen, claim_v6_item}
use x_bray.Refresh.Items.Claim.{
  claim_times, claim_next_work_item, claim_in_transaction, claim_for_run, claim_under_lease,
  claim_legacy_item, expected_is_blocked, take_eligible,
}
use x_bray.Refresh.Items.Settle.{
  deferral_times, defer_work_item_claim, complete_work_item_claim, settle_claim, deferred_item,
  completed_item,
}
use x_bray.Refresh.Commands.History.{HasEnded, StillEnded, parsed-HasEnded}

module _ (run_id : String) (run : RefreshRunRecord) (db : Db)
    (h : HasEnded run_id run db.runs) where
  ended_settle :
      (id key token : String) (now : ℕ) (set : RefreshWorkItemRecord → RefreshWorkItemRecord)
      → StillEnded run_id run (settle_claim id key token now set db)
  unfolding settle_claim
  ended_settle id key token now set = h

  pub defer-HasEnded :
      (request : RefreshWorkItemDeferral)
      → HasEnded run_id run (defer_work_item_claim request db).1.runs
  unfolding defer_work_item_claim
  defer-HasEnded request =
      parsed-HasEnded run_id run db (deferral_times request)
        (λ times.
          settle_claim request.run_id request.item_key request.claim_token times.0
            (deferred_item request times.0 times.1))
        h
        (λ times.
          ended_settle request.run_id request.item_key request.claim_token times.0
            (deferred_item request times.0 times.1))

  pub complete-HasEnded :
      (completion : RefreshWorkItemCompletion)
      → HasEnded run_id run (complete_work_item_claim completion db).1.runs
  unfolding complete_work_item_claim
  complete-HasEnded completion =
      parsed-HasEnded run_id run db (utc_iso completion.finished_at "finished_at")
        (λ at.
          settle_claim completion.run_id completion.item_key completion.claim_token at
            (completed_item completion at))
        h
        (λ at.
          ended_settle completion.run_id completion.item_key completion.claim_token at
            (completed_item completion at))

  ended_chosen :
      (id token : String) (now expires_at : ℕ) (db' : Db)
      (r : Result (Option RefreshWorkItemRecord × List RefreshWorkItemRecord))
      → HasEnded run_id run db'.runs
      → StillEnded run_id run (claim_chosen id token now expires_at db' r)
  ended_chosen id token now expires_at db' (err e) h' = tt
  ended_chosen id token now expires_at db' (ok (chosen, table)) h' = h'

  ended_v6 :
      (id : String) (expected : Option String) (token : String) (now expires_at : ℕ) (db' : Db)
      → HasEnded run_id run db'.runs
      → StillEnded run_id run (claim_v6_item id expected token now expires_at db')
  unfolding claim_v6_item
  ended_v6 id expected token now expires_at db' h' = ended_chosen id token now expires_at db' _ h'

  ended_taken :
      (id token : String) (now expires_at : ℕ) (db' : Db) (found : Option RefreshWorkItemRecord)
      → HasEnded run_id run db'.runs
      → HasEnded run_id run (take_eligible id token now expires_at found db').1.runs
  unfolding take_eligible
  ended_taken id token now expires_at db' none h' = h'
  ended_taken id token now expires_at db' (some row) h' = h'

  ended_legacy :
      (id : String) (expected : Option String) (token : String) (now expires_at : ℕ) (db' : Db)
      → HasEnded run_id run db'.runs
      → HasEnded run_id run (claim_legacy_item id expected token now expires_at db').1.runs
  unfolding claim_legacy_item
  ended_legacy id expected token now expires_at db' h' =
      elim (Bool-cases (expected_is_blocked id expected now db'.items)) [
        | inl blocked ↦ rw blocked h'
        | inr open_ ↦ rw open_ (ended_taken id token now expires_at db' _ h')
      ]

  ended_exhausted :
      (id : String) (now : ℕ) → HasEnded run_id run (fail_exhausted_claims id now db).runs
  unfolding fail_exhausted_claims
  ended_exhausted id now = h

  ended_under_lease :
      (version id : String) (expected : Option String) (token : String) (now expires_at : ℕ)
      → StillEnded run_id run (claim_under_lease version id expected token now expires_at db)
  unfolding claim_under_lease
  ended_under_lease version id expected token now expires_at =
      let db' = fail_exhausted_claims id now db in
      let h' = ended_exhausted id now in
      elim (Bool-cases (any_where (live_in_run id now) db'.items)) [
        | inl live ↦ rw live h'
        | inr idle ↦ elim (Bool-cases (version == "daily-refresh-v6")) [
          | inl v6 ↦ rw (idle, v6) (ended_v6 id expected token now expires_at db' h')
          | inr legacy ↦ rw (idle, legacy) (ended_legacy id expected token now expires_at db' h')
        ]
      ]

  ended_claim :
      (found : Option RefreshRunRecord) (id : String) (expected : Option String) (token : String)
      (now expires_at : ℕ)
      → StillEnded run_id run (claim_for_run found id expected token now expires_at db)
  ended_claim none id expected token now expires_at = h
  ended_claim (some row) id expected token now expires_at =
      elim (Bool-cases (is_running row.state)) [
        | inr finished ↦ rw finished h
        | inl running ↦ elim (Bool-cases (has_live_lease db.lease id now)) [
          | inr lost ↦ rw (running, lost) h
          | inl leased ↦
              rw (running, leased)
                (ended_under_lease row.manifest_version id expected token now expires_at)
        ]
      ]

  ended_claiming :
      (id : String) (expected : Option String) (token : String) (now expires_at : ℕ)
      → StillEnded run_id run (claim_in_transaction id expected token now expires_at db)
  unfolding claim_in_transaction
  ended_claiming id expected token now expires_at =
      ended_claim (find_where (is_run id) db.runs) id expected token now expires_at

  pub claim-HasEnded :
      (request : RefreshWorkItemClaimRequest) (token : String)
      → HasEnded run_id run (claim_next_work_item request token db).1.runs
  unfolding claim_next_work_item
  claim-HasEnded request token =
      parsed-HasEnded run_id run db (claim_times request)
        (λ times.
          claim_in_transaction request.run_id request.expected_item_key token times.0 times.1)
        h (λ times. ended_claiming request.run_id request.expected_item_key token times.0 times.1)
