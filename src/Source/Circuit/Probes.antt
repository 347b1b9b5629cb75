-- ===== src/Source/Circuit/Probes.antt =====
-- Admissions by the stored row: new scopes, probes and refusals.
use x_bray.Base.{
  ℕ, ◌<◌, String, Bool, true, false, Option, none, some, List, [], ◌∷◌, ◌++◌, ◌≡◌, refl, inl, inr,
  arith, eq_refl, find_where, update_where, find_where-update, find_where-holds, Bool-cases,
}
use x_bray.Refresh.Models.{AccessRow}
use x_bray.Refresh.Scheduler.{is_scope}
use x_bray.Source.Circuit.{
  admission_of, upsert, new_access_row, admits, admit, claim_source_access_probe,
}

-- The stored row after a statement that keeps the scope.
module _ (scope : String) (inserted : AccessRow) (test : AccessRow → Bool)
    (set : AccessRow → AccessRow) where
  pub upsert-new :
      (rows : List AccessRow)
      → find_where (is_scope scope) rows ≡ none
      → upsert scope inserted test set rows ≡ (some inserted, rows ++ inserted ∷ [])
  unfolding upsert
  upsert-new rows h = rw h refl

  pub upsert-hit :
      (rows : List AccessRow) (row : AccessRow)
      → find_where (is_scope scope) rows ≡ some row
      → test row ≡ true
      → upsert scope inserted test set rows
        ≡ (some (set row), update_where (is_scope scope) set rows)
  unfolding upsert
  upsert-hit rows row h t = rw (h, t) refl

  pub upsert-miss :
      (rows : List AccessRow) (row : AccessRow)
      → find_where (is_scope scope) rows ≡ some row
      → test row ≡ false
      → upsert scope inserted test set rows ≡ (none, rows)
  unfolding upsert
  upsert-miss rows row h t = rw (h, t) refl

  pub find_where-upsert :
      (rows : List AccessRow) (row : AccessRow)
      → ((r : AccessRow) → (set r).scope_id ≡ r.scope_id)
      → find_where (is_scope scope) rows ≡ some row
      → find_where (is_scope scope) (update_where (is_scope scope) set rows) ≡ some (set row)
  find_where-upsert rows row keeps h = ground (
    arith,
    h,
    find_where-holds (is_scope scope) rows row h,
    find_where-update (is_scope scope) (is_scope scope) set rows (λ r. ground (arith, keeps r)),
  )

pub find_where-appended :
    (scope : String) (rows : List AccessRow) (row : AccessRow)
    → find_where (is_scope scope) rows ≡ none
    → is_scope scope row ≡ true
    → find_where (is_scope scope) (rows ++ row ∷ []) ≡ some row
unfolding find_where
find_where-appended scope [] row h k = rw k refl
find_where-appended scope (r ∷ rows) row h k = ground (arith, find_where-appended scope rows row)

-- An admission by the state of the stored row.
module _ (scope : String) (now lease_until : ℕ) (rows : List AccessRow) where
  pub claim-new :
      find_where (is_scope scope) rows ≡ none
      → claim_source_access_probe scope now lease_until rows ≡ (
        admission_of (some (new_access_row scope now)) none,
        rows ++ new_access_row scope now ∷ [],
      )
  unfolding claim_source_access_probe
  claim-new h =
      rw (upsert-new scope (new_access_row scope now) (admits now) (admit now lease_until) rows h)
        refl

  pub claim-admitted :
      (row : AccessRow)
      → find_where (is_scope scope) rows ≡ some row
      → admits now row ≡ true
      → claim_source_access_probe scope now lease_until rows ≡ (
        admission_of (some (admit now lease_until row)) none,
        update_where (is_scope scope) (admit now lease_until) rows,
      )
  unfolding claim_source_access_probe
  claim-admitted row h t =
      rw
        (upsert-hit scope (new_access_row scope now) (admits now) (admit now lease_until) rows row h
          t)
        refl

  pub claim-refused :
      (row : AccessRow)
      → find_where (is_scope scope) rows ≡ some row
      → admits now row ≡ false
      → claim_source_access_probe scope now lease_until rows
        ≡ (admission_of none (find_where (is_scope scope) rows), rows)
  unfolding claim_source_access_probe
  claim-refused row h t =
      rw
        (upsert-miss scope (new_access_row scope now) (admits now) (admit now lease_until) rows row
          h t)
        refl

  -- The stored row after an admission, and its generation.
  pub admitted-row :
      (generation : ℕ)
      → (claim_source_access_probe scope now lease_until rows).0.generation ≡ some generation
      → (row : AccessRow) × (find_where
            (is_scope scope)
            (claim_source_access_probe scope now lease_until rows).1
          ≡ some row)
        × (row.admission_generation ≡ generation)
  admitted-row generation h = by_row (find_where (is_scope scope) rows) refl
    where
      by_row :
          (found : Option AccessRow)
          → find_where (is_scope scope) rows ≡ found
          → (row : AccessRow) × (find_where
                (is_scope scope)
                (claim_source_access_probe scope now lease_until rows).1
              ≡ some row)
            × (row.admission_generation ≡ generation)
      by_row none e = rw (claim-new e) (
        new_access_row scope now,
        find_where-appended scope rows (new_access_row scope now) e (eq_refl scope),
        ground (arith, rw (claim-new e) at h),
      )
      by_row (some row) e = elim (Bool-cases (admits now row)) [
        | inr refused ↦ absurd (ground (arith, rw (claim-refused row e refused) at h))
        | inl admitted ↦ rw (claim-admitted row e admitted) (
          admit now lease_until row,
          find_where-upsert scope (new_access_row scope now) (admits now) (admit now lease_until)
              rows row (λ r. refl) e,
          ground (arith, rw (claim-admitted row e admitted) at h),
        )
      ]

-- A probe is alone: while its lease runs, every other claim of the scope is refused.
pub probe_is_exclusive :
    (scope : String) (now lease_until later other_lease : ℕ) (rows : List AccessRow)
    → (claim_source_access_probe scope now lease_until rows).0.is_probe ≡ true
    → later < lease_until
    → (claim_source_access_probe scope later other_lease
        (claim_source_access_probe scope now lease_until rows).1).0.admitted
      ≡ false
unfolding admits
probe_is_exclusive scope now lease_until later other_lease rows h lt =
    by_row (find_where (is_scope scope) rows) refl
  where
    by_row :
        (found : Option AccessRow)
        → find_where (is_scope scope) rows ≡ found
        → (claim_source_access_probe scope later other_lease
            (claim_source_access_probe scope now lease_until rows).1).0.admitted
          ≡ false
    by_row none e = absurd (ground (arith, rw (claim-new scope now lease_until rows e) at h))
    by_row (some row) e = elim (Bool-cases (admits now row)) [
      | inr refused ↦
          absurd (ground (arith, rw (claim-refused scope now lease_until rows row e refused) at h))
      | inl admitted ↦
          let rows' = update_where (is_scope scope) (admit now lease_until) rows in
          rw
            (
              claim-admitted scope now lease_until rows row e admitted,
              claim-refused scope later other_lease rows' (admit now lease_until row)
                  (find_where-upsert scope row (admits now) (admit now lease_until) rows row
                    (λ r. refl) e)
                  (ground
                    (arith, rw (claim-admitted scope now lease_until rows row e admitted) at h)),
            )
            refl
    ]
