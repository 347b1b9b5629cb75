-- ===== src/Refresh/Safety/ClaimUnderLease.antt =====
-- The guards of a claim, and the invariant on claims.
use x_bray.Base.{
  ℕ, String, true, false, Option, none, some, List, ◌≡◌, refl, ◌==◌, inl, inr, arith, find_where,
  any_where, select_where, order_by, count_where-eq_zero_of_any, Bool-cases, if◌then◌else◌, head_of,
}
use x_bray.Refresh.Models.{RefreshRunRecord, RefreshWorkItemRecord, Lease, Db}
use x_bray.Refresh.Models.{is_running}
use x_bray.Refresh.Transaction.{Result, ok, err, is_run, in_run, is_item, task_order_of}
use x_bray.Refresh.Items.Claims.{
  live_in_run, is_owner, has_live_lease, is_exhausted_claim, failed_claim, fail_exhausted_claims,
}
use x_bray.Refresh.Items.V6.{choose_from, claim_chosen, claim_v6_item}
use x_bray.Refresh.Items.Claim.{
  take_legacy_claim, take_eligible, expected_is_blocked, claim_legacy_item, claim_under_lease,
  claim_in_transaction, claim_for_run, is_eligible,
}
use x_bray.Refresh.Safety.Exclusive.{
  is_held, ExclusiveClaims, IsExclusive, ExclusiveClaims-quiet, live-le, Leaves, same_owner,
  has_live_lease-is_owner,
}
use x_bray.Refresh.Safety.Claim.{
  IsIdle, failed_claim-IsQuiet, ExclusiveClaims-take, LeavesIdle, choose_from-IsIdle,
  take_chosen-Exclusive,
}

fail_exhausted_claims-Exclusive :
    (run_id : String) (at now : ℕ) (db : Db)
    → IsExclusive now db
    → IsExclusive now (fail_exhausted_claims run_id at db)
unfolding fail_exhausted_claims
fail_exhausted_claims-Exclusive run_id at now db e =
    ExclusiveClaims-quiet (is_exhausted_claim run_id at)
      (failed_claim at none "AttemptLimitExceeded") db.items now db.runs db.lease
      (failed_claim-IsQuiet now at none _) e

-- The run that holds the lease and has no live claim: no claim is live at all.
IsIdle-of_run :
    {now : ℕ} {runs : List RefreshRunRecord} {lease : Option Lease}
    {items : List RefreshWorkItemRecord} (run_id : String)
    → is_owner run_id lease ≡ true
    → any_where (live_in_run run_id now) items ≡ false
    → ExclusiveClaims now runs lease items
    → IsIdle now runs lease items
IsIdle-of_run {now} {runs} {lease} {items} run_id owner none_live e = record {
  exclusive = e;
  idle = omega (
    arith,
    count_where-eq_zero_of_any (live_in_run run_id now) items none_live,
    live-le e run_id (λ row h. ground (arith, same_owner lease row.run_id run_id)),
  );
}

module _ (now expires_at : ℕ) (run_id token : String) (expected : Option String) (db : Db)
    (held : is_held db.lease db.runs run_id ≡ true) where
  take_eligible-Exclusive :
      (eligible : Option RefreshWorkItemRecord)
      → IsIdle now db.runs db.lease db.items
      → IsExclusive now (take_eligible run_id token now expires_at eligible db).1
  unfolding take_eligible
  take_eligible-Exclusive none r = r.exclusive
  take_eligible-Exclusive (some eligible) r =
      ExclusiveClaims-take now db.runs db.lease (is_item run_id eligible.item_key)
        (take_legacy_claim token now expires_at) db.items run_id eligible.item_key (λ row h. h)
        (λ row. refl) (λ row. refl) held r

  claim_legacy_item-Exclusive :
      IsIdle now db.runs db.lease db.items
      → IsExclusive now (claim_legacy_item run_id expected token now expires_at db).1
  unfolding claim_legacy_item
  claim_legacy_item-Exclusive r =
      elim (Bool-cases (expected_is_blocked run_id expected now db.items)) [
        | inl blocked ↦ rw blocked r.exclusive
        | inr free ↦ rw free (
            take_eligible-Exclusive
              (head_of
                (order_by task_order_of (select_where (is_eligible run_id expected now) db.items)))
              r)
      ]

  claim_chosen-Leaves :
      (r : Result (Option RefreshWorkItemRecord × List RefreshWorkItemRecord))
      → LeavesIdle now db.runs db.lease r
      → Leaves now (claim_chosen run_id token now expires_at db r)
  claim_chosen-Leaves (ok (chosen, table)) r =
      take_chosen-Exclusive now expires_at run_id token db.runs db.lease held chosen table r
  claim_chosen-Leaves (err e) r = tt

  claim_v6_item-Leaves :
      IsIdle now db.runs db.lease db.items
      → Leaves now (claim_v6_item run_id expected token now expires_at db)
  unfolding claim_v6_item
  claim_v6_item-Leaves r =
      let rows = order_by task_order_of (select_where (in_run run_id) db.items) in
      claim_chosen-Leaves (choose_from db.backend db.access now run_id expected rows rows db.items)
        (choose_from-IsIdle db.backend db.access now run_id expected rows db.runs db.lease rows
          db.items r)

  claim_idle-Leaves :
      (version : String)
      → IsIdle now db.runs db.lease db.items
      → Leaves now (
          if version == "daily-refresh-v6"
          then claim_v6_item run_id expected token now expires_at db
          else ok (claim_legacy_item run_id expected token now expires_at db))
  claim_idle-Leaves version r = elim (Bool-cases (version == "daily-refresh-v6")) [
    | inl v6 ↦ rw v6 (claim_v6_item-Leaves r)
    | inr legacy ↦ rw legacy (claim_legacy_item-Exclusive r)
  ]

module _ (now expires_at : ℕ) (run_id token : String) (expected : Option String) (db : Db)
    (run : RefreshRunRecord) (found : find_where (is_run run_id) db.runs ≡ some run)
    (running : is_running run.state ≡ true) where
  held_of_owner : is_owner run_id db.lease ≡ true → is_held db.lease db.runs run_id ≡ true
  held_of_owner owner = rw found (ground arith)

  claim_under_lease-Leaves :
      (version : String)
      → is_owner run_id db.lease ≡ true
      → IsExclusive now db
      → Leaves now (claim_under_lease version run_id expected token now expires_at db)
  unfolding claim_under_lease
  claim_under_lease-Leaves version owner e =
      let db' = fail_exhausted_claims run_id now db in
      let e' : IsExclusive now db' = fail_exhausted_claims-Exclusive run_id now now db e in
      let owner' : is_owner run_id db'.lease ≡ true = unfold fail_exhausted_claims in owner in
      let held' : is_held db'.lease db'.runs run_id ≡ true =
        unfold fail_exhausted_claims in held_of_owner owner in
      elim (Bool-cases (any_where (live_in_run run_id now) db'.items)) [
        | inl live ↦ rw live e'
        | inr none_live ↦ rw none_live (
            claim_idle-Leaves now expires_at run_id token expected db' held' version
              (IsIdle-of_run run_id owner' none_live e'))
      ]

  claim_running-Leaves :
      IsExclusive now db
      → Leaves now (claim_for_run (some run) run_id expected token now expires_at db)
  claim_running-Leaves e = elim (Bool-cases (has_live_lease db.lease run_id now)) [
    | inl leased ↦
        rw (running, leased)
          (claim_under_lease-Leaves run.manifest_version
            (has_live_lease-is_owner db.lease run_id now leased) e)
    | inr lost ↦ rw (running, lost) e
  ]

claim_for_run-Leaves :
    (now expires_at : ℕ) (run_id token : String) (expected : Option String) (db : Db)
    (found : Option RefreshRunRecord)
    → find_where (is_run run_id) db.runs ≡ found
    → IsExclusive now db
    → Leaves now (claim_for_run found run_id expected token now expires_at db)
claim_for_run-Leaves now expires_at run_id token expected db none h e = e
claim_for_run-Leaves now expires_at run_id token expected db (some run) h e =
    elim (Bool-cases (is_running run.state)) [
      | inl running ↦ claim_running-Leaves now expires_at run_id token expected db run h running e
      | inr finished ↦ rw finished e
    ]

pub claim_in_transaction-Leaves :
    (run_id : String) (expected : Option String) (token : String) (now expires_at : ℕ) (db : Db)
    → IsExclusive now db
    → Leaves now (claim_in_transaction run_id expected token now expires_at db)
unfolding claim_in_transaction
claim_in_transaction-Leaves run_id expected token now expires_at db e =
    claim_for_run-Leaves now expires_at run_id token expected db
      (find_where (is_run run_id) db.runs) refl e
