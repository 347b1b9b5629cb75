-- ===== src/Source/Budget/Plans.antt =====
-- The plan of a RetryBudget and its contexts: limits, units, groups and deferrals.
use x_bray.Base.{
  ℕ, String, Bool, true, false, Option, none, some, List, ◌==◌, ◌&&◌, ◌||◌, not, ltb, nat_eq,
  later_of,
}
use x_bray.Source.Table.{lookup, put}
use x_bray.Source.Budget.{
  ◌>>◌, key_error, runtime_error, value_error, Outcome, raised, done, raise_if, RetryBudget,
}

unfoldable pub set_request_limit : ℕ → RetryBudget → Outcome RetryBudget
set_request_limit planned budget = do
  raise_if (not (nat_eq budget.requests 0)) runtime_error
  raise_if (ltb budget.profile.max_requests planned) (value_error "planned request count")
  done (record budget { request_limit = planned })

abbrev pub same_deadline : Option ℕ → Option ℕ → Bool
same_deadline none none = true
same_deadline (some a) (some b) = nat_eq a b
same_deadline _ _ = false

abbrev pub is_zero : Option ℕ → Bool
is_zero none = false
is_zero (some n) = nat_eq n 0

abbrev pub plan_unit :
    Option ℕ → Option (Option ℕ) → String → ℕ → Option ℕ → RetryBudget → Outcome RetryBudget
plan_unit none _ unit planned deadline budget = done (record budget {
  unit_limits = put unit planned budget.unit_limits;
  unit_deadlines = put unit deadline budget.unit_deadlines;
})
plan_unit (some limit) none unit planned deadline budget = raised key_error
plan_unit (some limit) (some old) unit planned deadline budget =
    raise_if (not (nat_eq limit planned && same_deadline old deadline))
      (value_error "planned budget")
    >> done budget

unfoldable pub set_unit_limit : String → ℕ → Option ℕ → RetryBudget → Outcome RetryBudget
unfolding lookup put
set_unit_limit unit planned deadline budget = do
  raise_if (unit == "" || nat_eq planned 0) (value_error "id and positive request cap")
  raise_if (is_zero deadline) (value_error "positive deadline")
  plan_unit (lookup unit budget.unit_limits) (lookup unit budget.unit_deadlines) unit planned
      deadline budget

-- `setdefault`, then the context variable; the token is the value before.
abbrev start_unit : Option ℕ → String → ℕ → List (String × ℕ) → List (String × ℕ)
start_unit none unit now entries = put unit now entries
start_unit (some t) unit now entries = entries

unfoldable pub enter_unit : String → ℕ → RetryBudget → Option String × RetryBudget
unfolding lookup put
enter_unit unit now budget = (
  budget.unit_context,
  record budget {
    unit_started = start_unit (lookup unit budget.unit_started) unit now budget.unit_started;
    unit_context = some unit;
  },
)

unfoldable pub leave_unit : Option String → RetryBudget → RetryBudget
leave_unit token budget = record budget { unit_context = token }

unfoldable pub enter_request_group : String → RetryBudget → Outcome (Option String × RetryBudget)
enter_request_group group budget =
    raise_if (group == "") (value_error "request group")
    >> done (budget.request_group, record budget { request_group = some group })

unfoldable pub leave_request_group : Option String → RetryBudget → RetryBudget
leave_request_group token budget = record budget { request_group = token }

-- The instant of the `RetryDeferred` that is returned, and the budget.
unfoldable pub defer : ℕ → RetryBudget → Option ℕ × RetryBudget
defer retry_at budget =
    let latest = later_of (some retry_at) budget.retry_not_before in
    (latest, record budget { retry_not_before = latest })
