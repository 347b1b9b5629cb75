-- ===== src/Source/Budget/Limits.antt =====
-- The counters of a budget: what a reservation checks and charges.
use x_bray.Base.{
  sym, ◌+◌, ◌-◌, ℕ, ◌≤◌, ◌<◌, String, Bool, true, false, Option, none, some, ◌≡◌, refl, subst, ap,
  ◌==◌, inl, inr, arith, eq_iff, leb, nat_eq, Bool-cases,
}
use x_bray.Source.Table.{
  lookup, increment, count_of, total, total-increment, count-increment, count-increment_other,
}
use x_bray.Source.Budget.{
  unit_time, deadline_at, least, unit_deadline_elapsed, BudgetError, deadline_elapsed,
  requests_exhausted, Outcome, done, raised, ◌>>=◌, ◌>>◌, raise_if, RetryBudget, remaining_seconds,
  group_of, charged_unit, unit_remaining, check_gate, charge, check_limit, charge_unit,
  reserve_request,
}

-- The calls of a unit, and the calls that the plan allows it.
abbrev pub used_by : String → RetryBudget → ℕ
used_by unit budget = count_of (lookup unit budget.unit_requests)

abbrev pub allowed_to : String → RetryBudget → ℕ
allowed_to unit budget = count_of (lookup unit budget.unit_limits)

-- The counters keep to the caps, and the groups account for every request.
pub record IsWithin (budget : RetryBudget) : Type 0 where
  pub root : budget.requests ≤ budget.request_limit
  pub cap : budget.request_limit ≤ budget.profile.max_requests
  pub retried : budget.retries ≤ budget.requests
  pub grouped : total budget.group_requests ≡ budget.requests
  pub units : (unit : String) → used_by unit budget ≤ allowed_to unit budget

abbrev HasRoom : Option String → RetryBudget → Type 0
HasRoom none budget = Unit
HasRoom (some unit) budget = used_by unit budget < allowed_to unit budget

unit_remaining-HasRoom :
    (unit : Option String) (now root left : ℕ) (budget : RetryBudget)
    → unit_remaining unit now root budget ≡ done left
    → HasRoom unit budget
unfolding unit_remaining
unit_remaining-HasRoom none now root left budget h = tt
unit_remaining-HasRoom (some unit) now root left budget h =
    by_limit (lookup unit budget.unit_limits) (used_by unit budget) _ h
  where
    by_limit :
        (limit : Option ℕ) (used : ℕ) (rest : Outcome ℕ)
        → (check_limit limit used >> rest) ≡ done left
        → used < count_of limit
    by_limit none used rest h = absurd (ground arith)
    by_limit (some limit) used rest h = elim (Bool-cases (leb limit used)) [
      | inl full ↦ absurd (ground (arith, rw full at h))
      | inr room ↦ ground arith
    ]

charge_unit-within :
    (charged : Option String) (budget : RetryBudget) (unit : String)
    → HasRoom charged budget
    → used_by unit budget ≤ allowed_to unit budget
    → count_of (lookup unit (charge_unit charged budget.unit_requests)) ≤ allowed_to unit budget
charge_unit-within none budget unit room h = h
charge_unit-within (some charged) budget unit room h = elim (Bool-cases (charged == unit)) [
  | inl same ↦
      subst
        (λ u. count_of (lookup u (increment charged budget.unit_requests)) ≤ allowed_to u budget)
        ((eq_iff charged unit).0 same)
        (omega (arith, room, count-increment charged budget.unit_requests))
  | inr other ↦ omega (arith, h, count-increment_other charged unit budget.unit_requests other)
]

charge-IsWithin :
    (retry redirect gate_checked : Bool) (budget : RetryBudget)
    → budget.requests < budget.request_limit
    → HasRoom (charged_unit redirect budget.unit_context) budget
    → IsWithin budget
    → IsWithin (charge retry redirect gate_checked budget)
unfolding charge
charge-IsWithin retry redirect gate_checked budget room unit_room w = record {
  root = omega arith;
  cap = w.cap;
  retried = ground (arith, w.retried);
  grouped = omega (arith, w.grouped, total-increment (group_of budget) budget.group_requests);
  units = λ unit.
      charge_unit-within (charged_unit redirect budget.unit_context) budget unit unit_room
        (w.units unit);
}

>>=-eq-done {ℓ κ} :
    {A : Type ℓ} {B : Type κ} (m : Outcome A) (f : A → Outcome B) {b : B}
    → (m >>= f) ≡ done b
    → (a : A) × (m ≡ done a) × (f a ≡ done b)
>>=-eq-done (done a) f h = (a, refl, h)
>>=-eq-done (raised e) f h = absurd (ground arith)

pub raise_if-eq-done {ℓ} :
    {B : Type ℓ} (test : Bool) (e : BudgetError) (k : Outcome B) {b : B}
    → (raise_if test e >> k) ≡ done b
    → (test ≡ false) × (k ≡ done b)
raise_if-eq-done true e k h = absurd (ground arith)
raise_if-eq-done false e k h = (refl, h)

abbrev value_of : {A : Type 0} → A → Outcome A → A
value_of default (done a) = a
value_of default (raised e) = default

pub done-eq : {A : Type 0} (a b : A) → done a ≡ done b → a ≡ b
done-eq a b h = ap (value_of a) h

-- What a reservation has checked when it returns.
reserve_request-checks :
    (retry redirect gate_passes : Bool) (now left : ℕ) (budget budget' : RetryBudget)
    → reserve_request retry redirect gate_passes now budget ≡ done (left, budget')
    → (gate : Bool) × (nat_eq (remaining_seconds budget now) 0 ≡ false)
      × (leb budget.request_limit budget.requests ≡ false)
      × (unit_remaining
            (charged_unit redirect budget.unit_context)
            now
            (remaining_seconds budget now)
            budget
          ≡ done left)
      × (charge retry redirect gate budget ≡ budget')
unfolding reserve_request
reserve_request-checks retry redirect gate_passes now left budget budget' h =
    let root = remaining_seconds budget now in
    let timely = raise_if-eq-done (nat_eq root 0) deadline_elapsed _ h in
    let capped =
      raise_if-eq-done (leb budget.request_limit budget.requests) requests_exhausted _ timely.1 in
    let unit =
      >>=-eq-done (unit_remaining (charged_unit redirect budget.unit_context) now root budget) _
        capped.1 in
    let gate = >>=-eq-done (check_gate gate_passes budget) _ unit.2 in
    (
      gate.0,
      timely.0,
      capped.0,
      subst
          (λ l. unit_remaining (charged_unit redirect budget.unit_context) now root budget ≡ done l)
          (ap (λ p. p.0) (done-eq _ _ gate.2)) unit.1,
      ap (λ p. p.1) (done-eq _ _ gate.2),
    )

pub reserve_request-IsWithin :
    (retry redirect gate_passes : Bool) (now left : ℕ) (budget budget' : RetryBudget)
    → IsWithin budget
    → reserve_request retry redirect gate_passes now budget ≡ done (left, budget')
    → IsWithin budget'
reserve_request-IsWithin retry redirect gate_passes now left budget budget' w h =
    let checks = reserve_request-checks retry redirect gate_passes now left budget budget' h in
    subst IsWithin checks.4 (
      charge-IsWithin retry redirect checks.0 budget (ground (arith, checks.2))
        (unit_remaining-HasRoom (charged_unit redirect budget.unit_context) now
          (remaining_seconds budget now) left budget checks.3)
        w)

-- A time that is granted is positive, and no more than the root has left.
unit_remaining-time :
    (unit : Option String) (now root left : ℕ) (budget : RetryBudget)
    → 0 < root
    → unit_remaining unit now root budget ≡ done left
    → (0 < left) × (left ≤ root)
unfolding unit_remaining
unit_remaining-time none now root left budget h e =
    (ground (arith, done-eq root left e), ground (arith, done-eq root left e))
unit_remaining-time (some unit) now root left budget h e =
    let checked =
      >>=-eq-done (check_limit (lookup unit budget.unit_limits) (used_by unit budget)) _ e in
    by_deadline (lookup unit budget.unit_deadlines) (lookup unit budget.unit_started) checked.2
  where
    by_deadline :
        (deadline : Option (Option ℕ)) (started : Option ℕ)
        → unit_time deadline started now root ≡ done left
        → (0 < left) × (left ≤ root)
    by_deadline none started e =
        (ground (arith, done-eq root left e), ground (arith, done-eq root left e))
    by_deadline (some none) started e =
        (ground (arith, done-eq root left e), ground (arith, done-eq root left e))
    by_deadline (some (some deadline)) none e = absurd (ground arith)
    by_deadline (some (some deadline)) (some started) e =
        let least_time = least root (started + deadline - now) in
        let timely =
          raise_if-eq-done (nat_eq least_time 0) unit_deadline_elapsed (done least_time) e in
        (
          ground (arith, timely.0, done-eq least_time left timely.1),
          ground (arith, done-eq least_time left timely.1),
        )

-- A reservation that returns counts one request, within the limit and before the deadline, and
-- grants some time, no more than the acquisition has left.
pub reservation_is_in_time :
    (retry redirect gate_passes : Bool) (now left : ℕ) (budget budget' : RetryBudget)
    → reserve_request retry redirect gate_passes now budget ≡ done (left, budget')
    → (now < deadline_at budget)
      × (0 < left)
      × (now + left ≤ deadline_at budget)
      × (budget'.requests ≡ budget.requests + 1)
      × (budget'.requests ≤ budget.request_limit)
unfolding charge
reservation_is_in_time retry redirect gate_passes now left budget budget' h =
    let checks = reserve_request-checks retry redirect gate_passes now left budget budget' h in
    let root = remaining_seconds budget now in
    let timely : 0 < root = ground (arith, checks.1) in
    let granted =
      unit_remaining-time (charged_unit redirect budget.unit_context) now root left budget timely
        checks.3 in
    let counted : budget'.requests ≡ budget.requests + 1 = sym (ap (λ b. b.requests) checks.4) in
    (omega arith, granted.0, omega (arith, granted.1), counted, ground (arith, counted, checks.2))
