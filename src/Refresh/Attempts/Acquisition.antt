-- ===== src/Refresh/Attempts/Acquisition.antt =====
-- The acquisition of a claimed work item: `mark_refresh_acquisition_started` of backend/db/store.py.
use x_bray.Base.{
  ℕ, ◌+◌, Bool, some, List, ◌==◌, ◌&&◌, not, nat_eq, is_none, is_after, count_where, update_where,
  any_where, if◌then◌else◌,
}
use x_bray.Refresh.Models.{RefreshWorkItemRecord}
use x_bray.Refresh.Attempts.{
  AttemptContext, AttemptRow, AttemptDb, AttemptResult, runtime_error, succeeded, is_text_of,
  is_item_claimed,
}

-- The row that a claim's first acquisition marks.
abbrev pub is_unstarted : AttemptContext → AttemptRow → Bool
is_unstarted context row =
    row.attempt_id == context.attempt_id
    && row.run_id == context.run_id
    && row.item_key == context.item_key
    && nat_eq row.claim_generation context.generation
    && row.claim_token == context.claim_token
    && is_none row.outbound_started_at
    && is_none row.terminal_at

abbrev pub outbound_started : ℕ → AttemptRow → AttemptRow
outbound_started now row = record row { outbound_started_at = some now }

abbrev pub is_claimed_item : AttemptContext → ℕ → RefreshWorkItemRecord → Bool
is_claimed_item context now row =
    row.run_id == context.run_id
    && row.item_key == context.item_key
    && is_item_claimed row.status
    && nat_eq row.claim_generation context.generation
    && is_text_of row.claim_token context.claim_token
    && is_after row.claim_expires_at now

abbrev pub acquisition_counted : ℕ → RefreshWorkItemRecord → RefreshWorkItemRecord
acquisition_counted now row = record row {
  acquisition_attempts = row.acquisition_attempts + 1;
  updated_at = now;
}

-- The item that the join finds for a started attempt.
abbrev pub is_item_of : AttemptRow → ℕ → RefreshWorkItemRecord → Bool
is_item_of attempt now row =
    row.run_id == attempt.run_id
    && row.item_key == attempt.item_key
    && is_item_claimed row.status
    && nat_eq row.claim_generation attempt.claim_generation
    && is_text_of row.claim_token attempt.claim_token
    && is_after row.claim_expires_at now

abbrev pub is_current_start : AttemptContext → ℕ → List RefreshWorkItemRecord → AttemptRow → Bool
is_current_start context now items row =
    row.attempt_id == context.attempt_id
    && row.claim_token == context.claim_token
    && not (is_none row.outbound_started_at)
    && any_where (is_item_of row now) items

abbrev pub not_current {ℓ} : {A : Type ℓ} → AttemptResult A
not_current = runtime_error "refresh acquisition claim is no longer current"

abbrev pub mark_first : AttemptContext → ℕ → AttemptDb → AttemptResult AttemptDb
mark_first context now db =
    if not (nat_eq (count_where (is_claimed_item context now) db.items) 1)
    then not_current
    else succeeded (record db {
      attempts = update_where (is_unstarted context) (outbound_started now) db.attempts;
      items = update_where (is_claimed_item context now) (acquisition_counted now) db.items;
    })

abbrev pub mark_again : AttemptContext → ℕ → AttemptDb → AttemptResult AttemptDb
mark_again context now db =
    if any_where (is_current_start context now db.items) db.attempts
    then succeeded db
    else not_current

unfoldable pub mark_refresh_acquisition_started :
    AttemptContext → ℕ → AttemptDb → AttemptResult AttemptDb
mark_refresh_acquisition_started context now db =
    if any_where (is_unstarted context) db.attempts
    then mark_first context now db
    else mark_again context now db
