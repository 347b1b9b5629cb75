-- ===== src/Refresh/Items/Claim.antt =====
-- `claim_next_work_item`: the earliest eligible item of a running run is claimed under a new
-- token, while the run holds the daily lease and none of its claims is live.
use x_bray.Base.{
  ℕ, ◌+◌, String, Bool, true, false, Option, none, some, List, ◌==◌, ◌&&◌, not, leb, ltb, nat_eq,
  update_where, select_where, order_by, count_where, find_where, any_where, head_of, if◌then◌else◌,
}
use x_bray.Refresh.Models.{
  RefreshWorkItemStatus, RefreshWorkItemRecord, RefreshRunRecord, RefreshWorkItemClaimRequest, Db,
  is_running,
}
use x_bray.Refresh.Transaction.{
  input_error, Result, ok, ◌>>=◌, ◌>>◌, raise_if, Tx, transaction, utc_iso, is_run, in_run, is_item,
  task_order_of,
}
use x_bray.Refresh.Items.Claims.{live_in_run, is_waiting, has_live_lease, fail_exhausted_claims}
use x_bray.Refresh.Items.V6.{
  claim_v6_item, choose_from, consider, is_claimable, earlier_rows, apply_cooldown,
  apply_dependency, take_chosen,
}

-- An earlier item of the run that still waits keeps a later one from being claimed.
abbrev pub waits_before : String → ℕ → ℕ → RefreshWorkItemRecord → Bool
waits_before run_id order now row =
    in_run run_id row && ltb row.task_order order && is_waiting now row

abbrev pub item_is_blocked :
    Option RefreshWorkItemRecord → String → ℕ → List RefreshWorkItemRecord → Bool
item_is_blocked none run_id now items = true
item_is_blocked (some item) run_id now items =
    any_where (waits_before run_id item.task_order now) items

unfoldable pub expected_is_blocked : String → Option String → ℕ → List RefreshWorkItemRecord → Bool
expected_is_blocked run_id none now items = false
expected_is_blocked run_id (some key) now items =
    item_is_blocked (find_where (is_item run_id key) items) run_id now items

abbrev pub is_expected : Option String → RefreshWorkItemRecord → Bool
is_expected none row = true
is_expected (some key) row = row.item_key == key

abbrev pub is_eligible : String → Option String → ℕ → RefreshWorkItemRecord → Bool
is_eligible run_id expected now row =
    in_run run_id row && is_waiting now row && is_expected expected row

abbrev pub take_legacy_claim : String → ℕ → ℕ → RefreshWorkItemRecord → RefreshWorkItemRecord
take_legacy_claim token now expires_at row = record row {
  status = RefreshWorkItemStatus.claimed;
  attempt = row.attempt + 1;
  claim_generation = row.claim_generation + 1;
  claim_token = some token;
  claim_expires_at = some expires_at;
  claimed_at = some now;
  updated_at = now;
  finished_at = none;
  series_updated = 0;
  record_count = 0;
  error_code = none;
}

unfoldable pub take_eligible :
    String → String → ℕ → ℕ → Option RefreshWorkItemRecord → Db → Option RefreshWorkItemRecord × Db
take_eligible run_id token now expires_at none db = (none, db)
take_eligible run_id token now expires_at (some eligible) db =
    let key = is_item run_id eligible.item_key in
    let items' = update_where key (take_legacy_claim token now expires_at) db.items in
    (
      if nat_eq (count_where key db.items) 1 then find_where key items' else none,
      record db { items = items' },
    )

-- Manifests v1 to v5.
unfoldable pub claim_legacy_item :
    String → Option String → String → ℕ → ℕ → Db → Option RefreshWorkItemRecord × Db
claim_legacy_item run_id expected token now expires_at db =
    if expected_is_blocked run_id expected now db.items
    then (none, db)
    else take_eligible run_id token now expires_at
        (head_of (order_by task_order_of (select_where (is_eligible run_id expected now) db.items)))
        db

-- After the guards on the run and its lease.
unfoldable pub claim_under_lease :
    String → String → Option String → String → ℕ → ℕ → Tx (Option RefreshWorkItemRecord)
claim_under_lease version run_id expected token now expires_at db =
    let db' = fail_exhausted_claims run_id now db in
    if any_where (live_in_run run_id now) db'.items
    then ok (none, db')
    else if version == "daily-refresh-v6"
    then claim_v6_item run_id expected token now expires_at db'
    else ok (claim_legacy_item run_id expected token now expires_at db')

abbrev pub claim_for_run :
    Option RefreshRunRecord
    → String
    → Option String
    → String
    → ℕ
    → ℕ
    → Tx (Option RefreshWorkItemRecord)
claim_for_run none run_id expected token now expires_at db = ok (none, db)
claim_for_run (some run) run_id expected token now expires_at db =
    if not (is_running run.state)
    then ok (none, db)
    else if not (has_live_lease db.lease run_id now)
    then ok (none, db)
    else claim_under_lease run.manifest_version run_id expected token now expires_at db

unfoldable pub claim_in_transaction :
    String → Option String → String → ℕ → ℕ → Tx (Option RefreshWorkItemRecord)
claim_in_transaction run_id expected token now expires_at db =
    claim_for_run (find_where (is_run run_id) db.runs) run_id expected token now expires_at db

unfoldable pub claim_times : RefreshWorkItemClaimRequest → Result (ℕ × ℕ)
unfolding utc_iso
claim_times request = do
  now ← utc_iso request.now "now"
  expires_at ← utc_iso request.claim_expires_at "claim_expires_at"
  raise_if (leb expires_at now) (input_error "claim_expires_at")
  ok (now, expires_at)

-- `token` is the `uuid4` that the claim draws.
unfoldable pub claim_next_work_item :
    RefreshWorkItemClaimRequest → String → Db → Result (Option RefreshWorkItemRecord) × Db
unfolding claim_in_transaction claim_under_lease fail_exhausted_claims claim_v6_item
    claim_legacy_item expected_is_blocked take_eligible choose_from consider is_claimable
    earlier_rows apply_cooldown apply_dependency take_chosen transaction claim_times
claim_next_work_item request token = transaction (
    claim_times request >>= λ times.
    ok (claim_in_transaction request.run_id request.expected_item_key token times.0 times.1))
