-- ===== src/Source/Circuit/Outcomes.antt =====
-- What a recorded failure and a recorded success do to later claims, and how the scheduler's
-- reading of a circuit agrees with its admission.
use mathlib.Core.Option
use x_bray.Base.{
  ◌≢◌, ◌⊎◌, ℕ, ◌<◌, String, Bool, true, false, Option, none, some, List, ◌≡◌, refl, ap, ◌∙◌, ◌&&◌,
  ◌||◌, not, inl, inr, arith, eq_refl, is_none, is_after, later_of, find_where, update_where,
  if◌then◌else◌,
}
use x_bray.Refresh.Models.{CircuitState, AccessRow, sqlite, postgres}
use x_bray.Refresh.Scheduler.{
  is_scope, is_closed, access_state, provider_eligibility, state_of_scope, timestamp, column_value,
}
use x_bray.Source.Circuit.{
  is_half_open, is_open, upsert, has_passed, new_access_row, admits, bounded_failures, opens,
  claim_source_access_probe, fail_access, failed_access_row, record_source_access_failure,
  has_generation, succeed_access, record_source_access_success,
}
use x_bray.Source.Circuit.Probes.{
  upsert-new, upsert-hit, upsert-miss, find_where-upsert, find_where-appended, claim-new,
  claim-admitted, claim-refused, admitted-row,
}

-- A claim by what it finds stored.
claim-of-row :
    (scope : String) (now lease_until : ℕ) (rows : List AccessRow) (row : AccessRow) (answer : Bool)
    → find_where (is_scope scope) rows ≡ some row
    → admits now row ≡ answer
    → (claim_source_access_probe scope now lease_until rows).0.admitted ≡ answer
claim-of-row scope now lease_until rows row true h a =
    rw (claim-admitted scope now lease_until rows row h a) refl
claim-of-row scope now lease_until rows row false h a =
    rw (claim-refused scope now lease_until rows row h a) refl

abbrev pub failures_before : Option AccessRow → ℕ
failures_before none = 0
failures_before (some row) = row.consecutive_temporary_failures

module _ (scope : String) (now opened_until : ℕ) (retry : Option ℕ) (limited : Bool)
    (count : ℕ) where
  abbrev failures : ℕ
  failures = if limited then 0 else bounded_failures count

  failed-row :
      (rows : List AccessRow) (row : AccessRow)
      → find_where (is_scope scope) rows ≡ some row
      → find_where
          (is_scope scope)
          (record_source_access_failure scope now opened_until retry limited count rows)
        ≡ some (fail_access limited retry failures now opened_until row)
  unfolding record_source_access_failure upsert
  failed-row rows row h =
      let set = fail_access limited retry failures now opened_until in
      let inserted = failed_access_row limited retry failures scope now opened_until in
      ap (λ r. find_where (is_scope scope) r.1)
        (upsert-hit scope inserted (λ r. true) set rows row h refl)
      ∙ (find_where-upsert scope inserted (λ r. true) set rows row (λ r. refl) h)

  failed-new :
      (rows : List AccessRow)
      → find_where (is_scope scope) rows ≡ none
      → find_where
          (is_scope scope)
          (record_source_access_failure scope now opened_until retry limited count rows)
        ≡ some (failed_access_row limited retry failures scope now opened_until)
  unfolding record_source_access_failure upsert
  failed-new rows h =
      let set = fail_access limited retry failures now opened_until in
      let inserted = failed_access_row limited retry failures scope now opened_until in
      ap (λ r. find_where (is_scope scope) r.1) (upsert-new scope inserted (λ r. true) set rows h)
      ∙ (find_where-appended scope rows inserted h (eq_refl scope))

-- A failure that is a 429, that names a cooldown, or that makes three failures in all, opens the
-- circuit: each claim of the scope before `opened_until` is refused.
pub failure_opens_circuit :
    (scope : String) (now opened_until : ℕ) (retry : Option ℕ) (limited : Bool) (count : ℕ)
    (rows : List AccessRow) (later lease_until : ℕ)
    → opens limited retry
        (if limited then 0 else bounded_failures count)
        (failures_before (find_where (is_scope scope) rows))
      ≡ true
    → later < opened_until
    → (claim_source_access_probe scope later lease_until
        (record_source_access_failure scope now opened_until retry limited count rows)).0.admitted
      ≡ false
unfolding admits
failure_opens_circuit scope now opened_until retry limited count rows later lease_until h lt =
    by_row (find_where (is_scope scope) rows) refl
  where
    by_row :
        (found : Option AccessRow)
        → find_where (is_scope scope) rows ≡ found
        → (claim_source_access_probe scope later lease_until (
            record_source_access_failure scope now opened_until retry limited count
              rows)).0.admitted
          ≡ false
    by_row none e =
        claim-of-row scope later lease_until _ _ false
          (failed-new scope now opened_until retry limited count rows e) (ground (arith, rw e at h))
    by_row (some row) e =
        claim-of-row scope later lease_until _ _ false
          (failed-row scope now opened_until retry limited count rows row e)
          (rw (rw e at h) (ground arith))

module _ (scope : String) (now : ℕ) (generation : ℕ) (rows : List AccessRow) (row : AccessRow)
    (stored : find_where (is_scope scope) rows ≡ some row) where
  success-hit :
      row.admission_generation ≡ generation
      → record_source_access_success scope now (some generation) rows
        ≡ (true, update_where (is_scope scope) (succeed_access now) rows)
  unfolding record_source_access_success upsert
  success-hit h =
      ap (λ r. (not (is_none r.0), r.1))
        (upsert-hit scope (new_access_row scope now) (has_generation generation)
          (succeed_access now) rows row stored (ground arith))

  success-miss :
      row.admission_generation ≢ generation
      → record_source_access_success scope now (some generation) rows ≡ (false, rows)
  unfolding record_source_access_success upsert
  success-miss h =
      ap (λ r. (not (is_none r.0), r.1))
        (upsert-miss scope (new_access_row scope now) (has_generation generation)
          (succeed_access now) rows row stored (ground arith))

-- A success is ignored when a failure of the scope was recorded after its admission: the request
-- of the older generation cannot close the circuit.
pub stale_success_is_ignored :
    (scope : String) (now lease_until failed_at opened_until : ℕ) (retry : Option ℕ)
    (limited : Bool) (count done_at generation : ℕ) (rows : List AccessRow)
    → (claim_source_access_probe scope now lease_until rows).0.generation ≡ some generation
    → record_source_access_success scope done_at (some generation) (
        record_source_access_failure scope failed_at opened_until retry limited count
          (claim_source_access_probe scope now lease_until rows).1)
      ≡ (
        false,
        record_source_access_failure scope failed_at opened_until retry limited count
            (claim_source_access_probe scope now lease_until rows).1,
      )
stale_success_is_ignored scope now lease_until failed_at opened_until retry limited count done_at
      generation rows h =
    let admitted = admitted-row scope now lease_until rows generation h in
    success-miss scope done_at generation _ _
      (failed-row scope failed_at opened_until retry limited count _ admitted.0 admitted.1)
      (λ same. ground (arith, admitted.2))

-- A success of the current generation, with no cooldown still to run, closes the circuit: each
-- later claim of the scope is admitted, and none is a probe.
pub success_closes_circuit :
    (scope : String) (now generation later lease_until : ℕ) (rows : List AccessRow)
    (row : AccessRow)
    → find_where (is_scope scope) rows ≡ some row
    → row.admission_generation ≡ generation
    → is_after row.retry_not_before now ≡ false
    → let done = record_source_access_success scope now (some generation) rows in
      let next = claim_source_access_probe scope later lease_until done.1 in
      (done.0 ≡ true) × (next.0.admitted ≡ true) × (next.0.is_probe ≡ false)
unfolding admits
success_closes_circuit scope now generation later lease_until rows row stored same ready =
    let closed_row =
      find_where-upsert scope row (has_generation generation) (succeed_access now) rows row
        (λ r. refl) stored in
    let rows' = update_where (is_scope scope) (succeed_access now) rows in
    rw
      (
        success-hit scope now generation rows row stored same,
        claim-admitted scope later lease_until rows' (succeed_access now row) closed_row
            (ground (arith, ready)),
      )
      (refl, refl, ground (arith, ready))

-- With SQLite a provider that the scheduler calls eligible is admitted by a claim at that time.
pub eligible_is_admitted :
    (scope : String) (now lease_until : ℕ) (rows : List AccessRow)
    → (provider_eligibility (state_of_scope sqlite rows (some scope)) now).eligible ≡ true
    → (claim_source_access_probe scope now lease_until rows).0.admitted ≡ true
unfolding admits provider_eligibility
eligible_is_admitted scope now lease_until rows h = by_row (find_where (is_scope scope) rows) refl
  where
    text_time : (column : Option ℕ) → timestamp (column_value sqlite column) ≡ column
    text_time none = refl
    text_time (some t) = refl

    passed :
        (state : CircuitState) (opened retry lease : Option ℕ)
        → (is_closed state ≡ true)
          ⊎ ((is_after lease now ≡ false) × (is_after (later_of retry opened) now ≡ false))
        → (is_closed state
            || (is_open state
                && has_passed opened now
                && has_passed retry now
                && has_passed lease now)
            || (is_half_open state && has_passed lease now))
          ≡ true
    passed state opened retry lease (inl c) = ground arith
    passed state opened retry lease (inr waits) = ground (arith, waits.0, waits.1)

    by_row :
        (found : Option AccessRow)
        → find_where (is_scope scope) rows ≡ found
        → (claim_source_access_probe scope now lease_until rows).0.admitted ≡ true
    by_row none e = rw (claim-new scope now lease_until rows e) refl
    by_row (some row) e = claim-of-row scope now lease_until rows row true e (
        ground (
          arith,
          rw e at h,
          text_time row.opened_until,
          text_time row.retry_not_before,
          text_time row.probe_lease_until,
        ))

-- With PostgreSQL, whose columns are TIMESTAMPTZ, the scheduler calls every provider eligible at
-- every time: an open circuit, a cooldown and a running probe are never seen.
pub postgres_always_eligible :
    (rows : List AccessRow) (scope : Option String) (now : ℕ)
    → (provider_eligibility (state_of_scope postgres rows scope) now).eligible ≡ true
unfolding provider_eligibility
postgres_always_eligible rows none now = refl
postgres_always_eligible rows (some scope) now = by_row (find_where (is_scope scope) rows)
  where
    unread : (column : Option ℕ) → timestamp (column_value postgres column) ≡ none
    unread none = refl
    unread (some t) = refl

    by_row :
        (found : Option AccessRow)
        → (provider_eligibility (Option.map (access_state postgres) found) now).eligible ≡ true
    by_row none = refl
    by_row (some row) =
        ground (
          arith,
          unread row.opened_until,
          unread row.retry_not_before,
          unread row.probe_lease_until,
        )
