-- ===== src/Refresh/Items/Settle.antt =====
-- `defer_work_item_claim` and `complete_work_item_claim`: the two ways to give a claim back. Each
-- is one UPDATE, fenced by the claim's token, its expiry, the run's state and the daily lease.
use x_bray.Base.{
  ℕ, zero, suc, String, Bool, false, Option, none, some, ◌==◌, ◌&&◌, ◌||◌, leb, nat_eq,
  update_where, count_where, any_where,
}
use x_bray.Refresh.Models.{
  RefreshWorkItemStatus, RefreshWorkItemRecord, RefreshWorkItemCompletion, RefreshWorkItemDeferral,
  Db, outcome_status,
}
use x_bray.Refresh.Transaction.{
  input_error, Result, ok, ◌>>=◌, ◌>>◌, raise_if, Tx, transaction, utc_iso, is_item,
}
use x_bray.Refresh.Items.Claims.{is_live_claim, has_live_lease, is_running_run}
use Prim.Native.String.{[], ◌∷◌}

-- `text[:n]`, in characters.
unfoldable pub take_chars : ℕ → String → String
take_chars zero s = ""
take_chars (suc n) [] = ""
take_chars (suc n) (c ∷ s) = c ∷ take_chars n s

abbrev pub has_token : String → Option String → Bool
has_token token none = false
has_token token (some t) = t == token

-- The WHERE of both statements.
unfoldable pub is_current_claim : Db → String → String → String → ℕ → RefreshWorkItemRecord → Bool
is_current_claim db run_id item_key token now row =
    is_item run_id item_key row
    && is_live_claim now row
    && has_token token row.claim_token
    && any_where (is_running_run run_id) db.runs
    && has_live_lease db.lease run_id now

unfoldable pub settle_claim :
    String → String → String → ℕ → (RefreshWorkItemRecord → RefreshWorkItemRecord) → Tx Bool
settle_claim run_id item_key token now set db =
    let current = is_current_claim db run_id item_key token now in
    ok (
      nat_eq (count_where current db.items) 1,
      record db { items = update_where current set db.items },
    )

abbrev pub deferred_item :
    RefreshWorkItemDeferral → ℕ → ℕ → RefreshWorkItemRecord → RefreshWorkItemRecord
deferred_item request now retry_at row = record row {
  status = RefreshWorkItemStatus.pending;
  claim_token = none;
  claim_expires_at = none;
  claimed_at = none;
  updated_at = now;
  finished_at = none;
  next_attempt_at = some retry_at;
  deferral_reason = some (take_chars 80 request.reason);
  error_code = some "Deferred";
  last_error_category = request.error_category;
  last_error_code = request.error_code;
}

abbrev pub completed_item :
    RefreshWorkItemCompletion → ℕ → RefreshWorkItemRecord → RefreshWorkItemRecord
completed_item completion finished_at row = record row {
  status = outcome_status completion.status;
  last_error_category = completion.error_category;
  last_error_code = completion.error_code;
  updated_at = finished_at;
  finished_at = some finished_at;
  series_updated = completion.series_updated;
  record_count = completion.record_count;
  error_code = completion.error_code;
}

unfoldable pub deferral_times : RefreshWorkItemDeferral → Result (ℕ × ℕ)
unfolding utc_iso
deferral_times request = do
  now ← utc_iso request.now "now"
  retry_at ← utc_iso request.next_attempt_at "next_attempt_at"
  raise_if (leb retry_at now || request.reason == "") (input_error "next_attempt_at")
  ok (now, retry_at)

unfoldable pub defer_work_item_claim : RefreshWorkItemDeferral → Db → Result Bool × Db
unfolding deferral_times settle_claim is_current_claim transaction take_chars
defer_work_item_claim request = transaction (
    deferral_times request >>= λ times. ok (
      settle_claim request.run_id request.item_key request.claim_token times.0
        (deferred_item request times.0 times.1)))

unfoldable pub complete_work_item_claim : RefreshWorkItemCompletion → Db → Result Bool × Db
unfolding settle_claim is_current_claim transaction utc_iso
complete_work_item_claim completion = transaction (
    utc_iso completion.finished_at "finished_at" >>= λ finished_at. ok (
      settle_claim completion.run_id completion.item_key completion.claim_token finished_at
        (completed_item completion finished_at)))
