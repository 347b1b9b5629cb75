-- ===== src/Refresh/Scenarios/Overtaking.antt =====
-- A claim that overtakes the item that it puts off: _claim_v6_item of backend/db/refresh_run_items.py.
use x_bray.Base.{String, Option, none, some, List, [], ◌∷◌, ◌≡◌, refl, find_where}
use x_bray.Refresh.Models.{RefreshWorkItemRecord, open_, AccessRow, sqlite}
use x_bray.Refresh.Transaction.{Result, ok, err}
use x_bray.Refresh.Scheduler.{item_eligibility, provider_eligibility, source_scope_for_task}
use x_bray.Refresh.Items.V6.{choose_from, consider, is_claimable, earlier_rows}
use x_bray.Refresh.Scenarios.{pending_item, derived_item}

abbrev open_focus : AccessRow
open_focus = record {
  scope_id = "focus:primary:primary";
  consecutive_temporary_failures = 3;
  state = open_;
  opened_until = some 1900;
  retry_not_before = none;
  probe_lease_until = none;
  updated_at = 1000;
  admission_generation = 1;
}

abbrev both_items : List RefreshWorkItemRecord
both_items = pending_item ∷ derived_item ∷ []

abbrev chosen_key :
    Result (Option RefreshWorkItemRecord × List RefreshWorkItemRecord) → Option String
chosen_key (ok (some row, table)) = some row.item_key
chosen_key (ok (none, table)) = none
chosen_key (err e) = none

-- The circuit of the first item is open: the claim puts that item off until 1900, and takes the derived
-- item in the same call, since it asks the rows that it read before.
derived_overtakes_deferred :
    chosen_key
      (choose_from sqlite (open_focus ∷ []) 1300 "run-1" none both_items both_items both_items)
    ≡ some "derived_snapshots"
unfolding choose_from consider is_claimable earlier_rows item_eligibility provider_eligibility
    source_scope_for_task find_where
derived_overtakes_deferred = refl

-- A claim that reads the rows after the first one put the item off waits for it.
abbrev put_off_items : List RefreshWorkItemRecord
put_off_items = record pending_item { next_attempt_at = some 1900 } ∷ derived_item ∷ []

next_claim_waits :
    chosen_key (
      choose_from sqlite
        (open_focus ∷ [])
        1300
        "run-1"
        none
        put_off_items
        put_off_items
        put_off_items)
    ≡ none
unfolding choose_from consider is_claimable earlier_rows item_eligibility provider_eligibility
    source_scope_for_task find_where
next_claim_waits = refl
