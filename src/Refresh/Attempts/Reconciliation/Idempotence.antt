-- ===== src/Refresh/Attempts/Reconciliation/Idempotence.antt =====
-- A second reconciliation: `reconcile_expired_refresh_attempts` of backend/db/store.py called again
-- finds nothing left to record.
use x_bray.Base.{
  ℕ, String, Bool, true, false, Option, List, [], ◌∷◌, ◌++◌, ◌≡◌, refl, sym, ◌∙◌, ap, subst, arith,
  ◌&&◌, not, is_none, select_where, any_where, any_where-append, any_where-select, any_where-update,
  eq_refl, Bool-cases, inl, inr,
}
use x_bray.Refresh.Attempts.{AttemptRow, ReconciliationRow, AttemptDb, is_running_attempt}
use x_bray.Refresh.Attempts.Reconciliation.{
  Receipt, is_candidate, receipt_outcome, is_reconciliation, reconciliation, reconciled_attempt,
  insert_reconciliation, reconcile_one, counted, reconcile_candidates,
  reconcile_expired_refresh_attempts,
}

any_where-kept :
    {A : Type 0}
    → (p : A → Bool) (xs : List A) (x : A) → any_where p xs ≡ true
    → any_where p (xs ++ x ∷ []) ≡ true
any_where-kept p xs x h = any_where-append p xs (x ∷ []) ∙ (rw h refl)

any_where-found :
    {A : Type 0}
    → (p : A → Bool) (xs : List A) (x : A) → p x ≡ true
    → any_where p (xs ++ x ∷ []) ≡ true
unfolding any_where
any_where-found p xs x h = ground (arith, any_where-append p xs (x ∷ []), h)

module _ (receipt_of : String → Option Receipt) (now : ℕ) where
  -- A reconciliation of the attempt with the outcome that its receipt gives.
  abbrev is_own_reconciliation : AttemptRow → ReconciliationRow → Bool
  is_own_reconciliation row =
      is_reconciliation row.attempt_id (receipt_outcome (receipt_of row.attempt_id))

  abbrev is_recorded : AttemptDb → AttemptRow → Bool
  is_recorded db row = any_where (is_own_reconciliation row) db.reconciliations

  abbrev one : AttemptRow → AttemptDb → Bool × AttemptDb
  one row db = reconcile_one row.attempt_id (receipt_of row.attempt_id) now db

  abbrev all : List AttemptRow → AttemptDb → AttemptDb
  all rows db = (reconcile_candidates receipt_of now rows db).1

  counted_db : (inserted : Bool) (result : ℕ × AttemptDb) → (counted inserted result).1 ≡ result.1
  counted_db true (count, db) = refl
  counted_db false (count, db) = refl

  inserted_records :
      (row : AttemptRow) (db : AttemptDb)
      → is_recorded (insert_reconciliation row.attempt_id (receipt_of row.attempt_id) now db) row
        ≡ true
  unfolding any_where
  inserted_records row db =
      any_where-found (is_own_reconciliation row) db.reconciliations
        (reconciliation row.attempt_id (receipt_of row.attempt_id) now)
        (ground
          (arith, eq_refl row.attempt_id, eq_refl (receipt_outcome (receipt_of row.attempt_id))))

  one_records : (row : AttemptRow) (db : AttemptDb) → is_recorded (one row db).1 row ≡ true
  unfolding reconcile_one
  one_records row db = elim (Bool-cases (is_recorded db row)) [
    | inl e ↦ rw e e
    | inr e ↦ rw e (inserted_records row db)
  ]

  one_keeps :
      (row other : AttemptRow) (db : AttemptDb)
      → is_recorded db other ≡ true
      → is_recorded (one row db).1 other ≡ true
  unfolding reconcile_one
  one_keeps row other db h = elim (Bool-cases (is_recorded db row)) [
    | inl e ↦ rw e h
    | inr e ↦ rw e (
        any_where-kept (is_own_reconciliation other) db.reconciliations
          (reconciliation row.attempt_id (receipt_of row.attempt_id) now) h)
  ]

  all-step :
      (row : AttemptRow) (rows : List AttemptRow) (db : AttemptDb)
      → all (row ∷ rows) db ≡ all rows (one row db).1
  unfolding reconcile_candidates
  all-step row rows db =
      counted_db (one row db).0 (reconcile_candidates receipt_of now rows (one row db).1)

  all_keeps :
      (rows : List AttemptRow) (other : AttemptRow) (db : AttemptDb)
      → is_recorded db other ≡ true
      → is_recorded (all rows db) other ≡ true
  unfolding reconcile_candidates
  all_keeps [] other db h = h
  all_keeps (row ∷ rows) other db h =
      ap (λ d. is_recorded d other) (all-step row rows db)
      ∙ all_keeps rows other (one row db).1 (one_keeps row other db h)

  all_records :
      (rows : List AttemptRow) (db : AttemptDb)
      → any_where (λ row. not (is_recorded (all rows db) row)) rows ≡ false
  unfolding any_where
  all_records [] db = refl
  all_records (row ∷ rows) db =
      subst (λ d. any_where (λ x. not (is_recorded d x)) (row ∷ rows) ≡ false)
        (sym (all-step row rows db))
        (ground (
          arith,
          all_keeps rows row (one row db).1 (one_records row db),
          all_records rows (one row db).1,
        ))

  -- No recorded attempt is reconciled again.
  all-recorded :
      (rows : List AttemptRow) (db : AttemptDb)
      → any_where (λ row. not (is_recorded db row)) rows ≡ false
      → reconcile_candidates receipt_of now rows db ≡ (0, db)
  unfolding reconcile_candidates reconcile_one any_where
  all-recorded [] db h = refl
  all-recorded (row ∷ rows) db h =
      let recorded : is_recorded db row ≡ true = ground (arith, h) in
      let rest : any_where (λ x. not (is_recorded db x)) rows ≡ false = ground (arith, h) in
      rw recorded (ap (counted false) (all-recorded rows db rest))

  -- A condition on open attempts that none meets is met by none after a reconciliation.
  one_closes :
      (p : AttemptRow → Bool)
      → ((x : AttemptRow) → is_none x.terminal_at ≡ false → p x ≡ false)
      → (row : AttemptRow) (db : AttemptDb) → any_where p db.attempts ≡ false
      → any_where p (one row db).1.attempts ≡ false
  unfolding reconcile_one
  one_closes p open_only row db h = elim (Bool-cases (is_recorded db row)) [
    | inl e ↦ rw e h
    | inr e ↦ rw e (
        any_where-update p p (is_running_attempt row.attempt_id)
          (reconciled_attempt (receipt_of row.attempt_id) now) db.attempts
          (λ x k.
            ground
              (arith, open_only (reconciled_attempt (receipt_of row.attempt_id) now x) refl, k))
          h)
  ]

  all_closes :
      (p : AttemptRow → Bool)
      → ((x : AttemptRow) → is_none x.terminal_at ≡ false → p x ≡ false)
      → (rows : List AttemptRow) (db : AttemptDb) → any_where p db.attempts ≡ false
      → any_where p (all rows db).attempts ≡ false
  unfolding reconcile_candidates
  all_closes p open_only [] db h = h
  all_closes p open_only (row ∷ rows) db h =
      ap (λ d. any_where p d.attempts) (all-step row rows db)
      ∙ all_closes p open_only rows (one row db).1 (one_closes p open_only row db h)

  one-items : (row : AttemptRow) (db : AttemptDb) → (one row db).1.items ≡ db.items
  unfolding reconcile_one
  one-items row db = elim (Bool-cases (is_recorded db row)) [
    | inl e ↦ rw e refl
    | inr e ↦ rw e refl
  ]

  all-items : (rows : List AttemptRow) (db : AttemptDb) → (all rows db).items ≡ db.items
  unfolding reconcile_candidates
  all-items [] db = refl
  all-items (row ∷ rows) db =
      ap (λ d. d.items) (all-step row rows db) ∙ (all-items rows (one row db).1 ∙ one-items row db)

  module _ (run_id : String) (db : AttemptDb) where
    abbrev candidates : List AttemptRow
    candidates = select_where (is_candidate run_id now db.items) db.attempts

    abbrev is_left : AttemptRow → Bool
    is_left row = is_candidate run_id now db.items row && not (is_recorded (all candidates db) row)

    none_left : any_where is_left (all candidates db).attempts ≡ false
    none_left =
        all_closes is_left (λ x h. ground (arith, h)) candidates db
          (sym (
              any_where-select (λ row. not (is_recorded (all candidates db) row))
                (is_candidate run_id now db.items) db.attempts)
            ∙ all_records candidates db)

    -- A reconciliation of a run is final: a second one at the same time, with the same receipts, counts
    -- nothing and changes nothing.
    pub reconciliation_is_idempotent :
        reconcile_expired_refresh_attempts receipt_of run_id now
          (reconcile_expired_refresh_attempts receipt_of run_id now db).1
        ≡ (0, (reconcile_expired_refresh_attempts receipt_of run_id now db).1)
    unfolding reconcile_expired_refresh_attempts
    reconciliation_is_idempotent = rw (all-items candidates db) (
        all-recorded (select_where (is_candidate run_id now db.items) (all candidates db).attempts)
          (all candidates db)
          (any_where-select (λ row. not (is_recorded (all candidates db) row))
              (is_candidate run_id now db.items) (all candidates db).attempts
            ∙ none_left))
