-- ===== src/Refresh/Safety/Order.antt =====
-- The order of claims: what an item waits for before it may be claimed.
use x_bray.Base.{
  ℕ, String, Bool, true, false, Option, none, some, List, [], ◌∷◌, ◌≡◌, ◌≢◌, subst, later_of, refl,
  ◌∙◌, sym, ap, ◌&&◌, not, inl, inr, arith, leb, ltb, is_after, select_where, order_by, any_where,
  OrderedFrom, order_by-OrderedFrom, any_where-order_by, any_where-below, any_where-select,
  Bool-cases, if◌then◌else◌,
}
use x_bray.Refresh.Models.{RefreshWorkItemRecord, AccessRow, Backend, Db, is_failed}
use x_bray.Refresh.Transaction.{Result, ok, err, type_error, in_run, task_order_of}
use x_bray.Refresh.Scheduler.{item_eligibility, AccessState, state_of_scope, source_scope_for_task}
use x_bray.Refresh.Items.V6.{
  Decision, skip, cooldown, dependency, take, fault, is_retryable_row, is_derived_task,
  is_resolved_status, is_claimable, earlier_rows, consider, choose_from, cooldown_of, cell_text,
  apply_cooldown, apply_dependency,
}

earlier_row_step :
    (resolved final put_off derived eligible : Bool) (at : Option ℕ) (rest : Decision)
    → (if resolved
        then rest
        else if final
        then rest
        else if put_off
        then (if derived then elim at [ none ↦ skip | some t ↦ dependency t ] else rest)
        else if eligible
        then skip
        else rest)
      ≡ take
    → (rest ≡ take)
      × ((not resolved && not final && (if put_off then derived else eligible)) ≡ false)
earlier_row_step true final put_off derived eligible at rest h = (h, refl)
earlier_row_step false true put_off derived eligible at rest h = (h, refl)
earlier_row_step false false true true eligible none rest h = absurd (ground arith)
earlier_row_step false false true true eligible (some t) rest h = absurd (ground arith)
earlier_row_step false false true false eligible at rest h = (h, refl)
earlier_row_step false false false derived true at rest h = absurd (ground arith)
earlier_row_step false false false derived false at rest h = (h, refl)

module _ (backend : Backend) (access : List AccessRow) (now : ℕ) where
  -- An earlier row that a task must wait for: it has no final outcome, it is not a failure that
  -- stays, and either it is put off and the task is derived from it, or its provider may be asked.
  abbrev pub holds_back : String → RefreshWorkItemRecord → Bool
  holds_back task row =
      not (is_resolved_status row.status)
      && not (is_failed row.status && not (is_retryable_row row))
      && (if is_after row.next_attempt_at now
          then is_derived_task task
          else (item_eligibility backend access row.task now).eligible)

  earlier_rows-take :
      (task : String) (order low : ℕ) (rows : List RefreshWorkItemRecord)
      → OrderedFrom task_order_of low rows
      → earlier_rows backend access now task order rows ≡ take
      → any_where (λ row. ltb row.task_order order && holds_back task row) rows ≡ false
  unfolding earlier_rows any_where
  earlier_rows-take task order low [] o h = refl
  earlier_rows-take task order low (row ∷ rows) o h = elim (Bool-cases (leb order row.task_order)) [
    | inl past ↦
        any_where-below task_order_of (holds_back task) order row.task_order (row ∷ rows)
          (ground arith) (omega arith, o.1)
    | inr earlier ↦
        let step =
          earlier_row_step (is_resolved_status row.status)
            (is_failed row.status && not (is_retryable_row row)) (is_after row.next_attempt_at now)
            (is_derived_task task) (item_eligibility backend access row.task now).eligible
            row.next_attempt_at (earlier_rows backend access now task order rows)
            (rw earlier at h) in
        rw (step.1, earlier_rows-take task order row.task_order rows o.1 step.0) (ground arith)
  ]

cooldown_of-take : (state : Option AccessState) → cooldown_of state ≢ take
cooldown_of-take none h = absurd (ground arith)
cooldown_of-take (some state) h =
    by_cells (cell_text state.retry_not_before) (cell_text state.opened_until)
      (cell_text state.probe_lease_until) h
  where
    by_time :
        (at : Option ℕ) → (elim at as (λ _. Decision) [ none ↦ skip | some t ↦ cooldown t ]) ≢ take
    by_time none h = ground arith
    by_time (some t) h = ground arith

    by_cells :
        (retry opened lease : Result (Option ℕ))
        → (elim retry as (λ _. Decision) [
          | err e ↦ fault
          | ok r ↦ elim opened as (λ _. Decision) [
            | err e ↦ fault
            | ok o ↦ elim lease as (λ _. Decision) [
              | err e ↦ fault
              | ok l ↦ elim (later_of (later_of r o) l) as (λ _. Decision) [
                | none ↦ skip
                | some t ↦ cooldown t
              ]
            ]
          ]
        ])
          ≢ take
    by_cells (err e) opened lease h = ground arith
    by_cells (ok r) (err e) lease h = ground arith
    by_cells (ok r) (ok o) (err e) h = ground arith
    by_cells (ok r) (ok o) (ok l) h = by_time (later_of (later_of r o) l) h

module _ (backend : Backend) (access : List AccessRow) (now : ℕ) where
  consider-take :
      (expected : Option String) (rows : List RefreshWorkItemRecord) (row : RefreshWorkItemRecord)
      → consider backend access now expected rows row ≡ take
      → (is_claimable expected now row ≡ true)
        × ((item_eligibility backend access row.task now).eligible ≡ true)
        × (earlier_rows backend access now row.task row.task_order rows ≡ take)
  unfolding consider
  consider-take expected rows row h = elim (Bool-cases (is_claimable expected now row)) [
    | inr refused ↦ absurd (skip-not-take (rw refused at h))
    | inl claimable ↦ elim (Bool-cases (item_eligibility backend access row.task now).eligible) [
      | inr waits ↦ absurd (
          cooldown_of-take (state_of_scope backend access (source_scope_for_task row.task))
            (rw (claimable, waits) at h))
      | inl asked ↦ (claimable, asked, rw (claimable, asked) at h)
    ]
  ]
    where
      skip-not-take : skip ≢ take
      skip-not-take h = ground arith

  choose_from-chosen :
      (run_id : String) (expected : Option String)
      (all_rows rows table table' : List RefreshWorkItemRecord) (row : RefreshWorkItemRecord)
      → choose_from backend access now run_id expected all_rows rows table ≡ ok (some row, table')
      → consider backend access now expected all_rows row ≡ take
  unfolding choose_from
  choose_from-chosen run_id expected all_rows [] table table' row h = absurd (ground arith)
  choose_from-chosen run_id expected all_rows (r ∷ rows) table table' row h =
      by_decision (λ t k. choose_from-chosen run_id expected all_rows rows t table' row k)
        (consider backend access now expected all_rows r) refl h
    where
      by_decision :
          ((t : List RefreshWorkItemRecord)
            → choose_from backend access now run_id expected all_rows rows t ≡ ok (some row, table')
            → consider backend access now expected all_rows row ≡ take)
          → (d : Decision) → consider backend access now expected all_rows r ≡ d
          → (elim d as (λ _. Result (Option RefreshWorkItemRecord × List RefreshWorkItemRecord)) [
            | skip ↦ choose_from backend access now run_id expected all_rows rows table
            | cooldown at ↦
                choose_from backend access now run_id expected all_rows rows
                  (apply_cooldown run_id r.item_key now at table)
            | dependency at ↦
                choose_from backend access now run_id expected all_rows rows
                  (apply_dependency run_id r.item_key now at table)
            | take ↦ ok (some r, table)
            | fault ↦ err (type_error "nullable text")
          ])
            ≡ ok (some row, table')
          → consider backend access now expected all_rows row ≡ take
      by_decision rest skip e h = rest table h
      by_decision rest (cooldown at) e h = rest (apply_cooldown run_id r.item_key now at table) h
      by_decision rest (dependency at) e h =
          rest (apply_dependency run_id r.item_key now at table) h
      by_decision rest take e h =
          subst (λ x. consider backend access now expected all_rows x ≡ take) (ground arith) e
      by_decision rest fault e h = absurd (ground arith)

-- The item that a v6 claim chooses from the run's rows in task order passes every guard, its
-- provider may be asked, and the run has no earlier item that, by its row as it stood before the claim,
-- is still to be waited for: one that is not put off and whose provider may be asked, or for derived
-- work one that is put off. An earlier item that the claim itself puts off is not among these.
pub v6_choice_in_order :
    (db : Db) (run_id : String) (expected : Option String) (now : ℕ)
    (rows table : List RefreshWorkItemRecord) (row : RefreshWorkItemRecord)
    → rows ≡ order_by task_order_of (select_where (in_run run_id) db.items)
    → choose_from db.backend db.access now run_id expected rows rows db.items ≡ ok (some row, table)
    → (is_claimable expected now row ≡ true)
      × ((item_eligibility db.backend db.access row.task now).eligible ≡ true)
      × (any_where
            (λ r.
              in_run run_id r
              && (ltb r.task_order row.task_order
                  && holds_back db.backend db.access now row.task r))
            db.items
          ≡ false)
v6_choice_in_order db run_id expected now rows table row read h =
    let in_order = λ (r : RefreshWorkItemRecord).
      ltb r.task_order row.task_order && holds_back db.backend db.access now row.task r in
    let chosen = consider-take db.backend db.access now expected rows row (
      choose_from-chosen db.backend db.access now run_id expected rows rows db.items table row h) in
    (
      chosen.0,
      chosen.1,
      sym (any_where-select in_order (in_run run_id) db.items)
          ∙ sym (any_where-order_by task_order_of in_order (select_where (in_run run_id) db.items))
          ∙ ap (any_where in_order) (sym read)
          ∙ earlier_rows-take db.backend db.access now row.task row.task_order 0 rows
              (subst (OrderedFrom task_order_of 0) (sym read)
                (order_by-OrderedFrom task_order_of (select_where (in_run run_id) db.items)))
              chosen.2,
    )
