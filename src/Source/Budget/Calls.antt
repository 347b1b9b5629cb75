-- ===== src/Source/Budget/Calls.antt =====
-- Any calls of one budget: a call that raises leaves it as it was.
use x_bray.Base.{
  ℕ, ◌≤◌, String, Bool, Option, none, some, List, [], ◌∷◌, ◌≡◌, refl, subst, ap, ◌==◌, ◌&&◌, ◌||◌,
  not, inl, inr, arith, eq_iff, ltb, nat_eq, Bool-cases,
}
use x_bray.Source.Table.{lookup, put, count_of, total, lookup-put_other}
use x_bray.Source.Budget.{
  RetryProfile, runtime_error, value_error, Outcome, done, raised, RetryBudget, new_budget,
  restrict_to_probe, reserve_request,
}
use x_bray.Source.Budget.Plans.{
  plan_unit, is_zero, same_deadline, set_request_limit, set_unit_limit, enter_unit, leave_unit,
  enter_request_group, leave_request_group, defer,
}
use x_bray.Source.Budget.Limits.{
  used_by, IsWithin, reserve_request-IsWithin, raise_if-eq-done, done-eq,
}

pub data Call : Type 0 where
  reserve : Bool → Bool → Bool → ℕ → Call
  limit : ℕ → Call
  plan : String → ℕ → Option ℕ → Call
  enter : String → ℕ → Call
  leave : Option String → Call
  enter_group : String → Call
  leave_group : Option String → Call
  put_off : ℕ → Call
  probe : Call

abbrev budget_after : {A : Type 0} → (A → RetryBudget) → RetryBudget → Outcome A → RetryBudget
budget_after f budget (done a) = f a
budget_after f budget (raised e) = budget

unfoldable pub call : Call → RetryBudget → RetryBudget
call (reserve retry redirect gate_passes now) budget =
    budget_after (λ r. r.1) budget (reserve_request retry redirect gate_passes now budget)
call (limit planned) budget = budget_after (λ b. b) budget (set_request_limit planned budget)
call (plan unit planned deadline) budget =
    budget_after (λ b. b) budget (set_unit_limit unit planned deadline budget)
call (enter unit now) budget = (enter_unit unit now budget).1
call (leave token) budget = leave_unit token budget
call (enter_group group) budget = budget_after (λ r. r.1) budget (enter_request_group group budget)
call (leave_group token) budget = leave_request_group token budget
call (put_off at) budget = (defer at budget).1
call probe budget = restrict_to_probe budget

unfoldable pub call_all : List Call → RetryBudget → RetryBudget
call_all [] budget = budget
call_all (c ∷ cs) budget = call_all cs (call c budget)

-- A call keeps the caps if each result that it can return does.
budget_after-IsWithin :
    {A : Type 0} (f : A → RetryBudget) (budget : RetryBudget) (m : Outcome A)
    → IsWithin budget
    → ((a : A) → m ≡ done a → IsWithin (f a))
    → IsWithin (budget_after f budget m)
budget_after-IsWithin f budget (done a) w h = h a refl
budget_after-IsWithin f budget (raised e) w h = w

set_request_limit-IsWithin :
    (planned : ℕ) (budget budget' : RetryBudget)
    → IsWithin budget
    → set_request_limit planned budget ≡ done budget'
    → IsWithin budget'
unfolding set_request_limit
set_request_limit-IsWithin planned budget budget' w h =
    let unused = raise_if-eq-done (not (nat_eq budget.requests 0)) runtime_error _ h in
    let capped =
      raise_if-eq-done (ltb budget.profile.max_requests planned)
        (value_error "planned request count") _ unused.1 in
    subst IsWithin (done-eq _ _ capped.1) (record {
      root = ground (arith, unused.0);
      cap = ground (arith, capped.0);
      retried = w.retried;
      grouped = w.grouped;
      units = w.units;
    })

plan_unit-IsWithin :
    (old : Option ℕ) (old_deadline : Option (Option ℕ)) (unit : String) (planned : ℕ)
    (deadline : Option ℕ) (budget budget' : RetryBudget)
    → lookup unit budget.unit_limits ≡ old
    → IsWithin budget
    → plan_unit old old_deadline unit planned deadline budget ≡ done budget'
    → IsWithin budget'
plan_unit-IsWithin (some n) none unit planned deadline budget budget' e w h = absurd (ground arith)
plan_unit-IsWithin (some n) (some old) unit planned deadline budget budget' e w h =
    subst IsWithin
      (done-eq _ _
        (raise_if-eq-done (not (nat_eq n planned && same_deadline old deadline))
          (value_error "planned budget") _ h).1)
      w
plan_unit-IsWithin none old_deadline unit planned deadline budget budget' e w h =
    subst IsWithin (done-eq _ _ h) (record {
      root = w.root;
      cap = w.cap;
      retried = w.retried;
      grouped = w.grouped;
      units = λ other. elim (Bool-cases (unit == other)) [
        | inl same ↦
            subst
              (λ u. used_by u budget ≤ count_of (lookup u (put unit planned budget.unit_limits)))
              ((eq_iff unit other).0 same) (omega (arith, rw e at (w.units unit)))
        | inr differ ↦
            rw (lookup-put_other unit other planned budget.unit_limits differ) (w.units other)
      ];
    })

set_unit_limit-IsWithin :
    (unit : String) (planned : ℕ) (deadline : Option ℕ) (budget budget' : RetryBudget)
    → IsWithin budget
    → set_unit_limit unit planned deadline budget ≡ done budget'
    → IsWithin budget'
unfolding set_unit_limit
set_unit_limit-IsWithin unit planned deadline budget budget' w h =
    let named =
      raise_if-eq-done (unit == "" || nat_eq planned 0) (value_error "id and positive request cap")
        _ h in
    let timed = raise_if-eq-done (is_zero deadline) (value_error "positive deadline") _ named.1 in
    plan_unit-IsWithin (lookup unit budget.unit_limits) (lookup unit budget.unit_deadlines) unit
      planned deadline budget budget' refl w timed.1

enter_request_group-IsWithin :
    (group : String) (budget budget' : RetryBudget) (token : Option String)
    → IsWithin budget
    → enter_request_group group budget ≡ done (token, budget')
    → IsWithin budget'
unfolding enter_request_group
enter_request_group-IsWithin group budget budget' token w h =
    let named = raise_if-eq-done (group == "") (value_error "request group") _ h in
    subst IsWithin (ap (λ r. r.1) (done-eq _ _ named.1)) (record {
      root = w.root;
      cap = w.cap;
      retried = w.retried;
      grouped = w.grouped;
      units = w.units;
    })

call-IsWithin : (c : Call) (budget : RetryBudget) → IsWithin budget → IsWithin (call c budget)
unfolding call enter_unit leave_unit leave_request_group defer
call-IsWithin (reserve retry redirect gate_passes now) budget w =
    budget_after-IsWithin (λ r. r.1) budget (reserve_request retry redirect gate_passes now budget)
      w (λ r h. reserve_request-IsWithin retry redirect gate_passes now r.0 budget r.1 w h)
call-IsWithin (limit planned) budget w =
    budget_after-IsWithin (λ b. b) budget (set_request_limit planned budget) w
      (λ b h. set_request_limit-IsWithin planned budget b w h)
call-IsWithin (plan unit planned deadline) budget w =
    budget_after-IsWithin (λ b. b) budget (set_unit_limit unit planned deadline budget) w
      (λ b h. set_unit_limit-IsWithin unit planned deadline budget b w h)
call-IsWithin (enter unit now) budget w = record {
  root = w.root;
  cap = w.cap;
  retried = w.retried;
  grouped = w.grouped;
  units = w.units;
}
call-IsWithin (leave token) budget w = record {
  root = w.root;
  cap = w.cap;
  retried = w.retried;
  grouped = w.grouped;
  units = w.units;
}
call-IsWithin (enter_group group) budget w =
    budget_after-IsWithin (λ r. r.1) budget (enter_request_group group budget) w
      (λ r h. enter_request_group-IsWithin group budget r.1 r.0 w h)
call-IsWithin (leave_group token) budget w = record {
  root = w.root;
  cap = w.cap;
  retried = w.retried;
  grouped = w.grouped;
  units = w.units;
}
call-IsWithin (put_off at) budget w = record {
  root = w.root;
  cap = w.cap;
  retried = w.retried;
  grouped = w.grouped;
  units = w.units;
}
call-IsWithin probe budget w = record {
  root = w.root;
  cap = w.cap;
  retried = w.retried;
  grouped = w.grouped;
  units = w.units;
}

call_all-IsWithin :
    (calls : List Call) (budget : RetryBudget) → IsWithin budget → IsWithin (call_all calls budget)
unfolding call_all
call_all-IsWithin [] budget w = w
call_all-IsWithin (c ∷ cs) budget w =
    call_all-IsWithin cs (call c budget) (call-IsWithin c budget w)

-- After any calls of a new budget the requests are at most the limit and the limit at most the
-- profile's cap, the retries at most the requests, the groups add up to the requests, and each unit
-- has used no more than it was planned.
pub budget_is_never_overdrawn :
    (profile : RetryProfile) (has_gate : Bool) (now : ℕ) (calls : List Call)
    → IsWithin (call_all calls (new_budget profile has_gate now))
unfolding new_budget lookup total
budget_is_never_overdrawn profile has_gate now calls =
    call_all-IsWithin calls (new_budget profile has_gate now) (record {
      root = omega arith;
      cap = omega arith;
      retried = omega arith;
      grouped = refl;
      units = λ unit. omega arith;
    })
