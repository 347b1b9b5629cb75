-- ===== src/Source/Budget.antt =====
-- `RetryBudget` of backend/ingestion_policy.py: the requests and the time that one acquisition of
-- a provider may use. Clock readings are numbers of one small unit of time.
pub mod Limits
pub mod Plans
pub mod Calls
use x_bray.Base.{
  ℕ, ◌+◌, ◌-◌, String, Bool, true, false, Option, none, some, List, [], ◌==◌, ◌&&◌, ◌||◌, not, leb,
  ltb, nat_eq, is_none, later_of, if◌then◌else◌,
}
use x_bray.Source.Table.{lookup, put, increment, count_of}

pub record RetryProfile : Type 0 where
  pub source : String
  pub max_requests : ℕ
  pub deadline : ℕ
  pub request_timeout : ℕ

-- The exceptions of the methods, and `gate_refused` for whatever the request gate raises.
pub data BudgetError : Type 0 where
  deadline_elapsed : BudgetError
  requests_exhausted : BudgetError
  unplanned_unit : BudgetError
  unit_requests_exhausted : BudgetError
  unit_deadline_elapsed : BudgetError
  key_error : BudgetError
  gate_refused : BudgetError
  runtime_error : BudgetError
  value_error : String → BudgetError

pub data Outcome {ℓ} (A : Type ℓ) : Type ℓ where
  raised : BudgetError → Outcome A
  done : A → Outcome A

infixl 10 ◌>>=◌
abbrev pub ◌>>=◌ {κ ℓ} : {B : Type κ} {A : Type ℓ} → Outcome B → (B → Outcome A) → Outcome A
raised exception >>= next = raised exception
done value >>= next = next value

abbrev pub raise_if : Bool → BudgetError → Outcome (Unit {0})
raise_if false exception = done tt
raise_if true exception = raised exception

infixl 10 ◌>>◌
abbrev pub ◌>>◌ {ℓ} : {A : Type ℓ} → Outcome (Unit {0}) → Outcome A → Outcome A
check >> rest = check >>= λ passed. rest

-- The context variables are those of the one context in which the methods are called.
pub record RetryBudget : Type 0 where
  pub profile : RetryProfile
  pub has_gate : Bool
  pub started_at : ℕ
  pub requests : ℕ
  pub retries : ℕ
  pub retry_not_before : Option ℕ
  pub request_limit : ℕ
  pub gate_checked : Bool
  pub half_open_probe : Bool
  pub unit_limits : List (String × ℕ)
  pub unit_deadlines : List (String × Option ℕ)
  pub unit_started : List (String × ℕ)
  pub unit_requests : List (String × ℕ)
  pub group_requests : List (String × ℕ)
  pub request_group : Option String
  pub unit_context : Option String

unfoldable pub new_budget : RetryProfile → Bool → ℕ → RetryBudget
new_budget profile has_gate now = record {
  profile = profile;
  has_gate = has_gate;
  started_at = now;
  requests = 0;
  retries = 0;
  retry_not_before = none;
  request_limit = profile.max_requests;
  gate_checked = false;
  half_open_probe = false;
  unit_limits = [];
  unit_deadlines = [];
  unit_started = [];
  unit_requests = [];
  group_requests = [];
  request_group = none;
  unit_context = none;
}

abbrev pub deadline_at : RetryBudget → ℕ
deadline_at budget = budget.started_at + budget.profile.deadline

-- `max(0, deadline_at - now)`
abbrev pub remaining_seconds : RetryBudget → ℕ → ℕ
remaining_seconds budget now = deadline_at budget - now

abbrev pub restrict_to_probe : RetryBudget → RetryBudget
restrict_to_probe budget = record budget { half_open_probe = true }

-- `self._request_group.get() or unit or "root"`; an empty text is false.
abbrev pub text_or : Option String → String → String
text_or none default = default
text_or (some s) default = if s == "" then default else s

abbrev pub group_of : RetryBudget → String
group_of budget = text_or budget.request_group (text_or budget.unit_context "root")

abbrev pub least : ℕ → ℕ → ℕ
least a b = if ltb b a then b else a

-- The time that a unit's deadline leaves, no more than what the root leaves.
abbrev pub unit_time : Option (Option ℕ) → Option ℕ → ℕ → ℕ → Outcome ℕ
unit_time none started now remaining = done remaining
unit_time (some none) started now remaining = done remaining
unit_time (some (some deadline)) none now remaining = raised key_error
unit_time (some (some deadline)) (some started) now remaining =
    let left = least remaining (started + deadline - now) in
    raise_if (nat_eq left 0) unit_deadline_elapsed >> done left

-- `unit is not None and not redirect`: the unit whose own budget a request uses.
abbrev pub charged_unit : Bool → Option String → Option String
charged_unit true unit = none
charged_unit false unit = unit

abbrev pub check_limit : Option ℕ → ℕ → Outcome (Unit {0})
check_limit none used = raised unplanned_unit
check_limit (some limit) used = raise_if (leb limit used) unit_requests_exhausted

unfoldable pub unit_remaining : Option String → ℕ → ℕ → RetryBudget → Outcome ℕ
unfolding lookup
unit_remaining none now remaining budget = done remaining
unit_remaining (some unit) now remaining budget =
    check_limit (lookup unit budget.unit_limits) (count_of (lookup unit budget.unit_requests))
    >> unit_time (lookup unit budget.unit_deadlines) (lookup unit budget.unit_started) now remaining

-- `gate_passes` is what the request gate would do: return, or raise.
abbrev pub check_gate : Bool → RetryBudget → Outcome Bool
check_gate gate_passes budget =
    if budget.gate_checked || not budget.has_gate
    then done budget.gate_checked
    else if gate_passes
    then done true
    else raised gate_refused

abbrev pub charge_unit : Option String → List (String × ℕ) → List (String × ℕ)
charge_unit none counts = counts
charge_unit (some unit) counts = increment unit counts

unfoldable pub charge : Bool → Bool → Bool → RetryBudget → RetryBudget
unfolding increment
charge retry redirect gate_checked budget = record budget {
  gate_checked = gate_checked;
  requests = budget.requests + 1;
  group_requests = increment (group_of budget) budget.group_requests;
  retries = if retry then budget.retries + 1 else budget.retries;
  unit_requests = charge_unit (charged_unit redirect budget.unit_context) budget.unit_requests;
}

-- A method that raises leaves the budget as it was.
unfoldable pub reserve_request : Bool → Bool → Bool → ℕ → RetryBudget → Outcome (ℕ × RetryBudget)
unfolding unit_remaining charge
reserve_request retry redirect gate_passes now budget = do
  let root = remaining_seconds budget now
  raise_if (nat_eq root 0) deadline_elapsed
  raise_if (leb budget.request_limit budget.requests) requests_exhausted
  remaining ← unit_remaining (charged_unit redirect budget.unit_context) now root budget
  gate_checked ← check_gate gate_passes budget
  done (remaining, charge retry redirect gate_checked budget)
