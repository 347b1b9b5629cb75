-- ===== src/Refresh/Commands/Fenced.antt =====
-- The commands of a run that does not hold the daily lease.
use x_bray.Base.{
  ℕ, String, Bool, true, false, Option, none, some, ◌≡◌, refl, ap, ◌==◌, ◌||◌, not, arith, leb,
  find_where, count_where-eq_zero, Bool-cases, inl, inr,
}
use x_bray.Refresh.Models.{
  RawTimestamp, aware, naive, malformed, RefreshRunCutoffPhase, RefreshRunRecord,
  RefreshWorkItemRecord, RefreshWorkItemClaimRequest, RefreshWorkItemDeferral,
  RefreshRunCutoffUpdate, RefreshRunFinalization, Lease, Db, is_running,
}
use x_bray.Refresh.Transaction.{Result, ok, err, ◌>>=◌, Tx, transaction, settle, utc_iso, is_run}
use x_bray.Refresh.Items.Claims.{has_live_lease}
use x_bray.Refresh.Items.Claim.{
  claim_times, claim_next_work_item, claim_in_transaction, claim_for_run,
}
use x_bray.Refresh.Items.Settle.{
  is_current_claim, settle_claim, deferral_times, deferred_item, completed_item,
  defer_work_item_claim, complete_work_item_claim,
}
use x_bray.Refresh.Finalize.{
  cutoff_under_lease, cutoff_in_transaction, cutoff_times, persist_run_cutoff,
  finalize_in_transaction, finalize_times, finalize_and_release_run,
}
use x_bray.Refresh.Commands.{
  Command, create, claim, defer, complete, cutoff, finalize, execute, reading,
}
use x_bray.Refresh.Safety.Fencing.{instant, settle-none}

abbrev pub run_of : Command → String
run_of (create start) = start.run_id
run_of (claim request token) = request.run_id
run_of (defer request) = request.run_id
run_of (complete completion) = completion.run_id
run_of (cutoff update) = update.run_id
run_of (finalize finalization) = finalization.run_id

abbrev pub is_create : Command → Bool
is_create (create start) = true
is_create _ = false

abbrev HasNoEffect {ℓ} : {A : Type ℓ} → Db → Result (A × Db) → Type 0
HasNoEffect db r = (settle db r).1 ≡ db

-- A transaction whose parsed body has no effect.
transaction-unchanged {ℓ κ} :
    {A : Type ℓ} {B : Type κ} (db : Db) (m : Result B) (f : B → Tx A)
    → ((b : B) → m ≡ ok b → HasNoEffect db (f b db))
    → (transaction (m >>= λ b. ok (f b)) db).1 ≡ db
unfolding transaction
transaction-unchanged db (ok b) f h = h b refl
transaction-unchanged db (err e) f h = refl

module _ (db : Db) (run_id : String) where
  abbrev IsLost : ℕ → Type 0
  IsLost now = has_live_lease db.lease run_id now ≡ false

  lost_settle :
      (key token : String) (now : ℕ) (set : RefreshWorkItemRecord → RefreshWorkItemRecord)
      → IsLost now
      → HasNoEffect db (settle_claim run_id key token now set db)
  unfolding is_current_claim
  lost_settle key token now set h =
      ap (λ r. r.1)
        (settle-none db run_id key token now set (
          count_where-eq_zero (is_current_claim db run_id key token now) db.items
            (λ row. ground (arith, h))))

  lost_claim :
      (found : Option RefreshRunRecord) (expected : Option String) (token : String)
      (now expires_at : ℕ)
      → IsLost now
      → HasNoEffect db (claim_for_run found run_id expected token now expires_at db)
  lost_claim none expected token now expires_at h = refl
  lost_claim (some run) expected token now expires_at h = elim (Bool-cases (is_running run.state)) [
    | inl running ↦ rw (running, h) refl
    | inr finished ↦ rw finished refl
  ]

  lost_cutoff :
      (lease : Option Lease) (phase : RefreshRunCutoffPhase) (at now expires_at : ℕ)
      → has_live_lease lease run_id now ≡ false
      → HasNoEffect db (cutoff_under_lease lease phase run_id at now expires_at db)
  lost_cutoff none phase at now expires_at h = refl
  lost_cutoff (some lease) phase at now expires_at h =
      elim (Bool-cases (not (lease.owner == run_id) || leb lease.expires_at now)) [
        | inl lost ↦ rw lost refl
        | inr leased ↦ absurd (ground arith)
      ]

claim_times-instant :
    (request : RefreshWorkItemClaimRequest) (times : ℕ × ℕ)
    → claim_times request ≡ ok times
    → times.0 ≡ instant request.now
unfolding claim_times utc_iso
claim_times-instant request times h = ground arith

deferral_times-instant :
    (request : RefreshWorkItemDeferral) (times : ℕ × ℕ)
    → deferral_times request ≡ ok times
    → times.0 ≡ instant request.now
unfolding deferral_times utc_iso
deferral_times-instant request times h = ground arith

utc_iso-instant :
    (raw : RawTimestamp) (field : String) (t : ℕ) → utc_iso raw field ≡ ok t → t ≡ instant raw
unfolding utc_iso
utc_iso-instant (aware s) field t h = ground arith
utc_iso-instant naive field t h = ground arith
utc_iso-instant malformed field t h = ground arith

cutoff_times-instant :
    (update : RefreshRunCutoffUpdate) (times : ℕ × ℕ × ℕ)
    → cutoff_times update ≡ ok times
    → times.1 ≡ instant update.now
unfolding cutoff_times utc_iso
cutoff_times-instant update times h = ground arith

finalize_times-instant :
    (finalization : RefreshRunFinalization) (times : ℕ × Option ℕ)
    → finalize_times finalization ≡ ok times
    → times.0 ≡ instant finalization.finished_at
unfolding finalize_times utc_iso
finalize_times-instant finalization times h = ground arith

IsLost-at :
    (db : Db) (run_id : String) (raw : RawTimestamp) (t : ℕ)
    → t ≡ instant raw
    → IsLost db run_id (instant raw)
    → IsLost db run_id t
IsLost-at db run_id raw t same h = rw same h

-- While the run does not hold the daily lease at a command's time, the command changes nothing:
-- a claim, a deferral, a completion, a cutoff and a finalization alike.
pub lost_lease_has_no_effect :
    (c : Command) (db : Db)
    → is_create c ≡ false
    → has_live_lease db.lease (run_of c) (instant (reading c)) ≡ false
    → execute c db ≡ db
unfolding execute claim_next_work_item defer_work_item_claim complete_work_item_claim
    persist_run_cutoff finalize_and_release_run claim_in_transaction cutoff_in_transaction
    finalize_in_transaction
lost_lease_has_no_effect (create start) db work h = absurd (ground arith)
lost_lease_has_no_effect (claim request token) db work h =
    transaction-unchanged db (claim_times request)
      (λ times. claim_in_transaction request.run_id request.expected_item_key token times.0 times.1)
      (λ times parsed.
        lost_claim db request.run_id (find_where (is_run request.run_id) db.runs)
          request.expected_item_key token times.0 times.1
          (IsLost-at db request.run_id request.now times.0
            (claim_times-instant request times parsed) h))
lost_lease_has_no_effect (defer request) db work h =
    transaction-unchanged db (deferral_times request)
      (λ times.
        settle_claim request.run_id request.item_key request.claim_token times.0
          (deferred_item request times.0 times.1))
      (λ times parsed.
        lost_settle db request.run_id request.item_key request.claim_token times.0
          (deferred_item request times.0 times.1)
          (IsLost-at db request.run_id request.now times.0
            (deferral_times-instant request times parsed) h))
lost_lease_has_no_effect (complete completion) db work h =
    transaction-unchanged db (utc_iso completion.finished_at "finished_at")
      (λ at.
        settle_claim completion.run_id completion.item_key completion.claim_token at
          (completed_item completion at))
      (λ at parsed.
        lost_settle db completion.run_id completion.item_key completion.claim_token at
          (completed_item completion at)
          (IsLost-at db completion.run_id completion.finished_at at
            (utc_iso-instant completion.finished_at "finished_at" at parsed) h))
lost_lease_has_no_effect (cutoff update) db work h =
    transaction-unchanged db (cutoff_times update)
      (λ times. cutoff_in_transaction update.phase update.run_id times.0 times.1 times.2)
      (λ times parsed. lost_cutoff db update.run_id db.lease update.phase times.0 times.1 times.2 (
        IsLost-at db update.run_id update.now times.1 (cutoff_times-instant update times parsed) h))
lost_lease_has_no_effect (finalize finalization) db work h =
    transaction-unchanged db (finalize_times finalization)
      (λ times. finalize_in_transaction finalization times.0 times.1)
      (λ times parsed.
        rw
          (IsLost-at db finalization.run_id finalization.finished_at times.0
            (finalize_times-instant finalization times parsed) h)
          refl)
