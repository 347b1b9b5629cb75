-- ===== src/Refresh/Commands/Exclusion.antt =====
-- The invariant on claims, over any sequence of commands.
use x_bray.Base.{
  sym, ℕ, ◌≤◌, String, Option, none, List, [], ◌∷◌, ◌≡◌, refl, arith, count_where, subst,
}
use x_bray.Refresh.Models.{
  RawTimestamp, aware, naive, malformed, RefreshRunStart, RefreshWorkItemClaimRequest,
  RefreshWorkItemDeferral, RefreshWorkItemCompletion, RefreshRunCutoffUpdate,
  RefreshRunFinalization, Backend, Db, empty_db,
}
use x_bray.Refresh.Transaction.{Result, ok, err, ◌>>=◌, Tx, transaction, utc_iso}
use x_bray.Refresh.Items.Claim.{claim_times, claim_next_work_item, claim_in_transaction}
use x_bray.Refresh.Items.Settle.{
  deferral_times, defer_work_item_claim, complete_work_item_claim, settle_claim, deferred_item,
  completed_item,
}
use x_bray.Refresh.Lifecycle.Manifest.{NormalStart}
use x_bray.Refresh.Lifecycle.Create.{normalize_start, create_in_transaction, create_or_resume_run}
use x_bray.Refresh.Finalize.{
  cutoff_times, finalize_times, cutoff_in_transaction, persist_run_cutoff, finalize_in_transaction,
  finalize_and_release_run,
}
use x_bray.Refresh.Safety.Exclusive.{
  IsExclusive, ExclusiveClaims-later, ExclusiveClaims-idle, Leaves, settle-Leaves,
}
use x_bray.Refresh.Safety.ClaimUnderLease.{claim_in_transaction-Leaves}
use x_bray.Refresh.Safety.Settle.{
  deferred_item-IsQuiet, completed_item-IsQuiet, settle_claim-Leaves,
}
use x_bray.Refresh.Safety.Create.{create_in_transaction-Leaves}
use x_bray.Refresh.Safety.Finalize.{cutoff_in_transaction-Leaves, finalize_in_transaction-Leaves}
use x_bray.Refresh.Commands.{
  Command, create, claim, defer, complete, cutoff, finalize, execute, execute_all, reading, time_of,
  end_time, InOrder,
}

-- What a parsed request leaves at a time, for a body or a refusal.
abbrev LeavesBody {ℓ} : {A : Type ℓ} → ℕ → Db → Result (Tx A) → Type 0
LeavesBody now db (ok body) = Leaves now (body db)
LeavesBody now db (err e) = Unit

transaction-Exclusive {ℓ} :
    {A : Type ℓ} (now : ℕ) (db : Db) (r : Result (Tx A))
    → IsExclusive now db
    → LeavesBody now db r
    → IsExclusive now (transaction r db).1
unfolding transaction
transaction-Exclusive now db (ok body) e h = settle-Leaves now db (body db) e h
transaction-Exclusive now db (err x) e h = e

bind-LeavesBody {ℓ κ} :
    {A : Type ℓ} {B : Type κ} (now : ℕ) (db : Db) (m : Result B) (f : B → Result (Tx A))
    → ((b : B) → m ≡ ok b → LeavesBody now db (f b))
    → LeavesBody now db (m >>= f)
bind-LeavesBody now db (ok b) f h = h b refl
bind-LeavesBody now db (err x) f h = tt

utc_iso-time :
    (t now : ℕ) (raw : RawTimestamp) (field : String)
    → utc_iso raw field ≡ ok now
    → time_of t raw ≡ now
unfolding utc_iso
utc_iso-time t now (aware s) field h = ground arith
utc_iso-time t now naive field h = ground arith
utc_iso-time t now malformed field h = ground arith

module _ (t : ℕ) (db : Db) (raw : RawTimestamp) (field : String) {now : ℕ}
    (parsed : utc_iso raw field ≡ ok now) where
  at_reading : (P : ℕ → Type 0) → P now → P (time_of t raw)
  at_reading P h = subst P (sym (utc_iso-time t now raw field parsed)) h

  IsExclusive-now : IsExclusive (time_of t raw) db → IsExclusive now db
  IsExclusive-now e = subst (λ s. IsExclusive s db) (utc_iso-time t now raw field parsed) e

claim_times-now :
    (request : RefreshWorkItemClaimRequest) (times : ℕ × ℕ)
    → claim_times request ≡ ok times
    → utc_iso request.now "now" ≡ ok times.0
unfolding claim_times
claim_times-now request times h = ground arith

normalize_start-now :
    (start : RefreshRunStart) (normal : NormalStart)
    → normalize_start start ≡ ok normal
    → utc_iso start.now "now" ≡ ok normal.now
unfolding normalize_start
normalize_start-now start normal h = ground arith

module _ (t : ℕ) (db : Db) where
  create-Exclusive :
      (start : RefreshRunStart)
      → IsExclusive (time_of t start.now) db
      → IsExclusive (time_of t start.now) (create_or_resume_run start db).1
  unfolding create_or_resume_run
  create-Exclusive start e =
      transaction-Exclusive (time_of t start.now) db
        (normalize_start start >>= λ normal. ok (create_in_transaction normal)) e
        (bind-LeavesBody (time_of t start.now) db (normalize_start start)
          (λ normal. ok (create_in_transaction normal))
          λ normal h.
            at_reading t db start.now "now" (normalize_start-now start normal h)
              (λ s. Leaves s (create_in_transaction normal db))
              (create_in_transaction-Leaves normal db
                (IsExclusive-now t db start.now "now" (normalize_start-now start normal h) e)))

  claim-Exclusive :
      (request : RefreshWorkItemClaimRequest) (token : String)
      → IsExclusive (time_of t request.now) db
      → IsExclusive (time_of t request.now) (claim_next_work_item request token db).1
  unfolding claim_next_work_item
  claim-Exclusive request token e =
      let body = λ (times : ℕ × ℕ).
        claim_in_transaction request.run_id request.expected_item_key token times.0 times.1 in
      transaction-Exclusive (time_of t request.now) db
        (claim_times request >>= λ times. ok (body times)) e
        (bind-LeavesBody (time_of t request.now) db (claim_times request) (λ times. ok (body times))
          λ times h.
            at_reading t db request.now "now" (claim_times-now request times h)
              (λ s. Leaves s (body times db))
              (claim_in_transaction-Leaves request.run_id request.expected_item_key token times.0
                times.1 db
                (IsExclusive-now t db request.now "now" (claim_times-now request times h) e)))

  defer-Exclusive :
      (request : RefreshWorkItemDeferral)
      → IsExclusive (time_of t request.now) db
      → IsExclusive (time_of t request.now) (defer_work_item_claim request db).1
  unfolding defer_work_item_claim
  defer-Exclusive request e =
      let body = λ (times : ℕ × ℕ).
        settle_claim request.run_id request.item_key request.claim_token times.0
          (deferred_item request times.0 times.1) in
      transaction-Exclusive (time_of t request.now) db
        (deferral_times request >>= λ times. ok (body times)) e
        (bind-LeavesBody (time_of t request.now) db (deferral_times request)
          (λ times. ok (body times))
          λ times h.
            settle_claim-Leaves request.run_id request.item_key request.claim_token times.0
              (time_of t request.now) (deferred_item request times.0 times.1) db
              (deferred_item-IsQuiet request times.0 times.1 (time_of t request.now)) e)

  complete-Exclusive :
      (completion : RefreshWorkItemCompletion)
      → IsExclusive (time_of t completion.finished_at) db
      → IsExclusive (time_of t completion.finished_at) (complete_work_item_claim completion db).1
  unfolding complete_work_item_claim
  complete-Exclusive completion e =
      let time = utc_iso completion.finished_at "finished_at" in
      let body = λ (at : ℕ).
        settle_claim completion.run_id completion.item_key completion.claim_token at
          (completed_item completion at) in
      transaction-Exclusive (time_of t completion.finished_at) db (time >>= λ at. ok (body at)) e (
        bind-LeavesBody (time_of t completion.finished_at) db time (λ at. ok (body at))
          λ at h.
            settle_claim-Leaves completion.run_id completion.item_key completion.claim_token at
              (time_of t completion.finished_at) (completed_item completion at) db
              (completed_item-IsQuiet completion at (time_of t completion.finished_at)) e)

  cutoff-Exclusive :
      (update : RefreshRunCutoffUpdate)
      → IsExclusive (time_of t update.now) db
      → IsExclusive (time_of t update.now) (persist_run_cutoff update db).1
  unfolding persist_run_cutoff
  cutoff-Exclusive update e =
      let body = λ (times : ℕ × ℕ × ℕ).
        cutoff_in_transaction update.phase update.run_id times.0 times.1 times.2 in
      transaction-Exclusive (time_of t update.now) db
        (cutoff_times update >>= λ times. ok (body times)) e
        (bind-LeavesBody (time_of t update.now) db (cutoff_times update) (λ times. ok (body times))
          λ times h.
            cutoff_in_transaction-Leaves update.phase update.run_id times.0 times.1 times.2
              (time_of t update.now) db e)

  finalize-Exclusive :
      (finalization : RefreshRunFinalization)
      → IsExclusive (time_of t finalization.finished_at) db
      → IsExclusive
          (time_of t finalization.finished_at)
          (finalize_and_release_run finalization db).1
  unfolding finalize_and_release_run
  finalize-Exclusive finalization e =
      let body = λ (times : ℕ × Option ℕ). finalize_in_transaction finalization times.0 times.1 in
      transaction-Exclusive (time_of t finalization.finished_at) db
        (finalize_times finalization >>= λ times. ok (body times)) e
        (bind-LeavesBody (time_of t finalization.finished_at) db (finalize_times finalization)
          (λ times. ok (body times))
          λ times h.
            finalize_in_transaction-Leaves finalization times.0 (time_of t finalization.finished_at)
              times.1 db e)

pub execute-Exclusive :
    (t : ℕ) (c : Command) (db : Db)
    → t ≤ time_of t (reading c)
    → IsExclusive t db
    → IsExclusive (time_of t (reading c)) (execute c db)
unfolding execute
execute-Exclusive t c db h e =
    by_command c (ExclusiveClaims-later t (time_of t (reading c)) db.runs db.lease db.items h e)
  where
    by_command :
        (c : Command)
        → IsExclusive (time_of t (reading c)) db
        → IsExclusive (time_of t (reading c)) (execute c db)
    by_command (create start) e = create-Exclusive t db start e
    by_command (claim request token) e = claim-Exclusive t db request token e
    by_command (defer request) e = defer-Exclusive t db request e
    by_command (complete completion) e = complete-Exclusive t db completion e
    by_command (cutoff update) e = cutoff-Exclusive t db update e
    by_command (finalize finalization) e = finalize-Exclusive t db finalization e

pub execute_all-Exclusive :
    (t : ℕ) (commands : List Command) (db : Db)
    → InOrder t commands
    → IsExclusive t db
    → IsExclusive (end_time t commands) (execute_all commands db)
unfolding execute_all
execute_all-Exclusive t [] db h e = e
execute_all-Exclusive t (c ∷ cs) db h e =
    execute_all-Exclusive (time_of t (reading c)) cs (execute c db) h.1
      (execute-Exclusive t c db h.0 e)

-- After any commands whose clock readings never go back, from the empty schema: no two claims are
-- live at once, each item has one row, and a live claim is of the running run that owns the
-- daily lease.
pub one_live_claim :
    (backend : Backend) (commands : List Command)
    → InOrder 0 commands
    → IsExclusive (end_time 0 commands) (execute_all commands (empty_db backend))
unfolding count_where
one_live_claim backend commands h =
    execute_all-Exclusive 0 commands (empty_db backend) h
      (ExclusiveClaims-idle 0 [] none [] (λ r k. omega arith) refl)
