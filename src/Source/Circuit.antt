-- ===== src/Source/Circuit.antt =====
-- The circuit of a data provider in `source_access_state`, as backend/db/store.py updates it.
pub mod Probes
pub mod Outcomes
use x_bray.Base.{
  ℕ, ◌+◌, String, Bool, true, false, Option, none, some, List, [], ◌∷◌, ◌++◌, ◌==◌, ◌&&◌, ◌||◌, not,
  leb, ltb, nat_eq, is_none, is_after, is_due, find_where, update_where, if◌then◌else◌,
}
use x_bray.Refresh.Models.{CircuitState, closed, open_, half_open, AccessRow}
use x_bray.Refresh.Scheduler.{is_scope, is_closed}

abbrev pub is_half_open : CircuitState → Bool
is_half_open half_open = true
is_half_open _ = false

abbrev pub is_open : CircuitState → Bool
is_open open_ = true
is_open _ = false

module _ (scope : String) (inserted : AccessRow) (test : AccessRow → Bool)
    (set : AccessRow → AccessRow) (rows : List AccessRow) where
  abbrev pub upsert_found : Option AccessRow → Option AccessRow × List AccessRow
  upsert_found none = (some inserted, rows ++ inserted ∷ [])
  upsert_found (some row) =
      if test row then (some (set row), update_where (is_scope scope) set rows) else (none, rows)

  -- `INSERT … ON CONFLICT(scope_id) DO UPDATE SET … WHERE … RETURNING`: the row written, if one
  -- was, and the table.
  unfoldable pub upsert : Option AccessRow × List AccessRow
  upsert = upsert_found (find_where (is_scope scope) rows)

-- `column IS NULL OR column <= now`
abbrev pub has_passed : Option ℕ → ℕ → Bool
has_passed column now = is_none column || is_due column now

abbrev pub new_access_row : String → ℕ → AccessRow
new_access_row scope now = record {
  scope_id = scope;
  consecutive_temporary_failures = 0;
  state = closed;
  opened_until = none;
  retry_not_before = none;
  probe_lease_until = none;
  updated_at = now;
  admission_generation = 0;
}

-- The WHERE of the admission.
unfoldable pub admits : ℕ → AccessRow → Bool
admits now row =
    is_closed row.state
    || (is_open row.state
        && has_passed row.opened_until now
        && has_passed row.retry_not_before now
        && has_passed row.probe_lease_until now)
    || (is_half_open row.state && has_passed row.probe_lease_until now)

abbrev pub is_opened : CircuitState → Bool
is_opened state = is_open state || is_half_open state

abbrev pub admit : ℕ → ℕ → AccessRow → AccessRow
admit now lease_until row = record row {
  state = if is_opened row.state then half_open else row.state;
  probe_lease_until = if is_opened row.state then some lease_until else row.probe_lease_until;
  updated_at = now;
  admission_generation = row.admission_generation + 1;
}

-- What `claim_source_access_probe` returns.
pub record Admission : Type 0 where
  pub admitted : Bool
  pub retry_not_before : Option ℕ
  pub is_probe : Bool
  pub generation : Option ℕ

abbrev retry_of : Option AccessRow → Option ℕ
retry_of none = none
retry_of (some row) = row.retry_not_before

abbrev pub admission_of : Option AccessRow → Option AccessRow → Admission
admission_of (some row) current = record {
  admitted = true;
  retry_not_before = row.retry_not_before;
  is_probe = is_half_open row.state;
  generation = some row.admission_generation;
}
admission_of none current = record {
  admitted = false;
  retry_not_before = retry_of current;
  is_probe = false;
  generation = none;
}

-- `_optional_timestamp_text` turns both drivers' values into texts, so the columns are instants.
unfoldable pub claim_source_access_probe :
    String → ℕ → ℕ → List AccessRow → Admission × List AccessRow
unfolding admits upsert
claim_source_access_probe scope now lease_until rows =
    let (written, rows') =
      upsert scope (new_access_row scope now) (admits now) (admit now lease_until) rows in
    (admission_of written (find_where (is_scope scope) rows'), rows')

-- `max(1, min(failure_count, 3))`
abbrev pub bounded_failures : ℕ → ℕ
bounded_failures count = if ltb count 1 then 1 else if ltb 3 count then 3 else count

module _ (rate_limited : Bool) (retry_not_before : Option ℕ) (failures : ℕ) where
  -- The circuit opens: a 429, a cooldown that the provider asked for, or a third failure.
  abbrev pub opens : ℕ → Bool
  opens before =
      rate_limited
      || not (is_none retry_not_before)
      || (not rate_limited && leb 3 (before + failures))

  abbrev pub fail_access : ℕ → ℕ → AccessRow → AccessRow
  fail_access now opened_until row = record row {
    consecutive_temporary_failures =
        if rate_limited
        then row.consecutive_temporary_failures
        else row.consecutive_temporary_failures + failures;
    state = if opens row.consecutive_temporary_failures then open_ else closed;
    opened_until = if opens row.consecutive_temporary_failures then some opened_until else none;
    retry_not_before = if is_none retry_not_before then row.retry_not_before else retry_not_before;
    probe_lease_until = none;
    updated_at = now;
    admission_generation = row.admission_generation + 1;
  }

  abbrev pub failed_access_row : String → ℕ → ℕ → AccessRow
  failed_access_row scope now opened_until =
      let is_open_now = rate_limited || not (is_none retry_not_before) || leb 3 failures in
      record {
        scope_id = scope;
        consecutive_temporary_failures = failures;
        state = if is_open_now then open_ else closed;
        opened_until = if is_open_now then some opened_until else none;
        retry_not_before = retry_not_before;
        probe_lease_until = none;
        updated_at = now;
        admission_generation = 0;
      }

-- With `rate_limited` the statement adds no failure.
unfoldable pub record_source_access_failure :
    String → ℕ → ℕ → Option ℕ → Bool → ℕ → List AccessRow → List AccessRow
unfolding upsert
record_source_access_failure scope now opened_until retry_not_before rate_limited failure_count
      rows =
    let failures = if rate_limited then 0 else bounded_failures failure_count in
    (upsert scope (failed_access_row rate_limited retry_not_before failures scope now opened_until)
      (λ row. true) (fail_access rate_limited retry_not_before failures now opened_until) rows).1

abbrev pub has_generation : ℕ → AccessRow → Bool
has_generation generation row = nat_eq row.admission_generation generation

-- A cooldown that the provider asked for outlives a success.
abbrev pub succeed_access : ℕ → AccessRow → AccessRow
succeed_access now row =
    let cooling = is_after row.retry_not_before now in
    record row {
      consecutive_temporary_failures = 0;
      state = if cooling then open_ else closed;
      opened_until = if cooling then row.opened_until else none;
      retry_not_before = if cooling then row.retry_not_before else none;
      probe_lease_until = none;
      updated_at = if ltb now row.updated_at then row.updated_at else now;
    }

unfoldable pub record_source_access_success :
    String → ℕ → Option ℕ → List AccessRow → Bool × List AccessRow
unfolding upsert
record_source_access_success scope now none rows = (false, rows)
record_source_access_success scope now (some generation) rows =
    let (written, rows') =
      upsert scope (new_access_row scope now) (has_generation generation) (succeed_access now)
        rows in
    (not (is_none written), rows')

abbrev pub is_probing : String → AccessRow → Bool
is_probing scope row = is_scope scope row && is_half_open row.state

abbrev pub reopen : ℕ → ℕ → AccessRow → AccessRow
reopen now opened_until row = record row {
  state = open_;
  opened_until = some opened_until;
  probe_lease_until = none;
  updated_at = now;
}

unfoldable pub release_source_access_probe : String → ℕ → ℕ → List AccessRow → List AccessRow
release_source_access_probe scope now opened_until rows =
    update_where (is_probing scope) (reopen now opened_until) rows
