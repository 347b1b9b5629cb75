-- ===== src/Source/Scenarios.antt =====
-- The theorems on circuits and budgets at concrete inputs.
use x_bray.Base.{
  ◌≤◌, ◌<◌, ◌+◌, String, true, false, none, some, List, [], ◌∷◌, ◌≡◌, refl, arith, find_where,
}
use x_bray.Refresh.Models.{closed, open_, AccessRow, postgres}
use x_bray.Refresh.Scheduler.{provider_eligibility, state_of_scope}
use x_bray.Source.Circuit.{
  upsert, admits, claim_source_access_probe, record_source_access_failure,
  record_source_access_success,
}
use x_bray.Source.Circuit.Probes.{probe_is_exclusive}
use x_bray.Source.Circuit.Outcomes.{
  failure_opens_circuit, stale_success_is_ignored, eligible_is_admitted, postgres_always_eligible,
}
use x_bray.Source.Categories.{invalid_schema, other_error, http_status_error, ErrorDetails}
use x_bray.Source.Budget.{
  RetryProfile, RetryBudget, new_budget, reserve_request, unit_remaining, charge, deadline_at,
}
use x_bray.Source.Budget.Limits.{IsWithin, reservation_is_in_time}
use x_bray.Source.Budget.Calls.{
  Call, reserve, limit, plan, enter, call_all, budget_is_never_overdrawn,
}

abbrev open_row : AccessRow
open_row = record {
  scope_id = "focus:primary:primary";
  consecutive_temporary_failures = 3;
  state = open_;
  opened_until = some 1000;
  retry_not_before = none;
  probe_lease_until = none;
  updated_at = 100;
  admission_generation = 4;
}

abbrev closed_row : AccessRow
closed_row = record open_row {
  consecutive_temporary_failures = 2;
  state = closed;
  opened_until = none;
}

abbrev focus_scope : String
focus_scope = "focus:primary:primary"

probe_is_exclusive_example :
    (claim_source_access_probe focus_scope 1500 1600
      (claim_source_access_probe focus_scope 1200 1800 (open_row ∷ [])).1).0.admitted
    ≡ false
unfolding claim_source_access_probe upsert admits find_where
probe_is_exclusive_example =
    probe_is_exclusive focus_scope 1200 1800 1500 1600 (open_row ∷ []) refl (omega arith)

failure_opens_circuit_example :
    (claim_source_access_probe focus_scope 1500 1600 (
      record_source_access_failure focus_scope 1200 2000 none false 1 (closed_row ∷ []))).0.admitted
    ≡ false
unfolding find_where
failure_opens_circuit_example =
    failure_opens_circuit focus_scope 1200 2000 none false 1 (closed_row ∷ []) 1500 1600 refl
      (omega arith)

abbrev probed_rows : List AccessRow
probed_rows = (claim_source_access_probe focus_scope 1200 1800 (open_row ∷ [])).1

abbrev failed_rows : List AccessRow
failed_rows = record_source_access_failure focus_scope 1300 2300 none false 1 probed_rows

stale_success_is_ignored_example :
    record_source_access_success focus_scope 1400 (some 5) failed_rows ≡ (false, failed_rows)
unfolding claim_source_access_probe upsert admits find_where
stale_success_is_ignored_example =
    stale_success_is_ignored focus_scope 1200 1800 1300 2300 none false 1 1400 5 (open_row ∷ [])
      refl

eligible_is_admitted_example :
    (claim_source_access_probe focus_scope 1200 1800 (open_row ∷ [])).0.admitted ≡ true
unfolding find_where provider_eligibility
eligible_is_admitted_example = eligible_is_admitted focus_scope 1200 1800 (open_row ∷ []) refl

postgres_always_eligible_example :
    (provider_eligibility (state_of_scope postgres (open_row ∷ []) (some focus_scope)) 500).eligible
    ≡ true
postgres_always_eligible_example = postgres_always_eligible (open_row ∷ []) (some focus_scope) 500

-- The circuit that the scheduler overlooks refuses the claim at that time.
open_row-refused :
    (claim_source_access_probe focus_scope 500 1800 (open_row ∷ [])).0.admitted ≡ false
unfolding claim_source_access_probe upsert admits find_where
open_row-refused = refl

abbrev focus_profile : RetryProfile
focus_profile = record {
  source = "focus";
  max_requests = 3;
  deadline = 45000;
  request_timeout = 30000;
}

abbrev unit_calls : List Call
unit_calls =
    limit 2
    ∷ plan "window" 1 none
    ∷ enter "window" 10
    ∷ reserve false false true 20
    ∷ reserve true false true 30
    ∷ reserve false true true 40
    ∷ reserve false true true 50
    ∷ []

budget_is_never_overdrawn_example : IsWithin (call_all unit_calls (new_budget focus_profile true 0))
budget_is_never_overdrawn_example = budget_is_never_overdrawn focus_profile true 0 unit_calls

abbrev fresh_budget : RetryBudget
fresh_budget = new_budget focus_profile true 100

reservation_is_in_time_example :
    (200 < deadline_at fresh_budget)
    × (0 < 44900)
    × (200 + 44900 ≤ deadline_at fresh_budget)
    × ((charge false false true fresh_budget).requests ≡ fresh_budget.requests + 1)
    × ((charge false false true fresh_budget).requests ≤ fresh_budget.request_limit)
unfolding reserve_request unit_remaining new_budget charge
reservation_is_in_time_example =
    reservation_is_in_time false false true 200 44900 fresh_budget
      (charge false false true fresh_budget) refl

abbrev unavailable : ErrorDetails
unavailable = record {
  stage = none;
  error_category = none;
  category = none;
  error_class = http_status_error 503;
}

abbrev network_wrapper : ErrorDetails
network_wrapper = record {
  stage = some "network";
  error_category = some invalid_schema;
  category = none;
  error_class = other_error;
}
