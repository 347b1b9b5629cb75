-- ===== src/Refresh/Attempts/Histories/Finality.antt =====
-- Attempts that have ended, and the count of acquisitions.
use x_bray.Base.{
  ℕ, String, Bool, true, false, some, List, [], ◌∷◌, ◌++◌, ◌≡◌, refl, ◌∙◌, ap, arith, ◌==◌, eq_iff,
  is_none, update_where, find_where, any_where, find_where-append, find_where-update,
  any_where-append, any_where-update, any_where_mono, Bool-cases, inl, inr,
}
use x_bray.Refresh.Attempts.{
  AttemptContext, AttemptRow, AttemptDb, is_attempt, is_attempt_of, started_attempt,
  is_running_attempt, staged, finished_attempt,
}
use x_bray.Refresh.Attempts.Acquisition.{is_unstarted, outbound_started}
use x_bray.Refresh.Attempts.Reconciliation.{reconciled_attempt}
use x_bray.Refresh.Attempts.Histories.{AttemptCommand, run, run_attempts}

module _ (attempt_id : String) (row : AttemptRow) (ended : is_none row.terminal_at ≡ false) where
  abbrev IsKept : List AttemptRow → Type 0
  IsKept rows = find_where (is_attempt attempt_id) rows ≡ some row

  update_where-IsKept :
      (c : AttemptRow → Bool) (f : AttemptRow → AttemptRow) (rows : List AttemptRow)
      → ((x : AttemptRow) → is_attempt attempt_id (f x) ≡ is_attempt attempt_id x)
      → c row ≡ false
      → IsKept rows
      → IsKept (update_where c f rows)
  update_where-IsKept c f rows same untouched h =
      find_where-update (is_attempt attempt_id) c f rows same ∙ (rw h (rw untouched refl))

  not_running : (other : String) → is_running_attempt other row ≡ false
  not_running other = ground arith

  not_unstarted : (context : AttemptContext) → is_unstarted context row ≡ false
  not_unstarted context = ground arith

  -- An attempt that has ended keeps its row, every column of it, through any calls whatever: starts,
  -- acquisitions, stages, further ends and reconciliations.
  pub ended_attempt_is_final :
      (history : List (ℕ × AttemptCommand)) (db : AttemptDb)
      → find_where (is_attempt attempt_id) db.attempts ≡ some row
      → find_where (is_attempt attempt_id) (run history db).attempts ≡ some row
  ended_attempt_is_final history db h =
      run_attempts IsKept
        (λ context now rows unused k.
          find_where-append (is_attempt attempt_id) rows (started_attempt context now ∷ []) row k)
        (λ context now rows k.
          update_where-IsKept (is_unstarted context) (outbound_started now) rows (λ x. refl)
            (not_unstarted context) k)
        (λ other stage outcome detail rows k.
          update_where-IsKept (is_running_attempt other) (staged stage outcome detail) rows
            (λ x. refl) (not_running other) k)
        (λ other outcome error committed date now rows k.
          update_where-IsKept (is_running_attempt other)
            (finished_attempt outcome error committed date now) rows (λ x. refl) (not_running other)
            k)
        (λ other receipt now rows k.
          update_where-IsKept (is_running_attempt other) (reconciled_attempt receipt now) rows
            (λ x. refl) (not_running other) k)
        history db h

module _ (context : AttemptContext) where
  -- The attempt is stored and its first acquisition is not still to be marked.
  abbrev pub IsMarked : List AttemptRow → Type 0
  IsMarked rows =
      (any_where (is_attempt context.attempt_id) rows ≡ true)
      × (any_where (is_unstarted context) rows ≡ false)

  pub is_attempt-update :
      (c : AttemptRow → Bool) (f : AttemptRow → AttemptRow) (rows : List AttemptRow)
      → ((x : AttemptRow) → (f x).attempt_id ≡ x.attempt_id)
      → any_where (is_attempt context.attempt_id) (update_where c f rows)
        ≡ any_where (is_attempt context.attempt_id) rows
  unfolding any_where update_where
  is_attempt-update c f [] same = refl
  is_attempt-update c f (x ∷ rows) same = ground (arith, same x, is_attempt-update c f rows same)

  update_where-IsMarked :
      (c : AttemptRow → Bool) (f : AttemptRow → AttemptRow) (rows : List AttemptRow)
      → ((x : AttemptRow) → (f x).attempt_id ≡ x.attempt_id)
      → ((x : AttemptRow) → is_unstarted context x ≡ false → is_unstarted context (f x) ≡ false)
      → IsMarked rows
      → IsMarked (update_where c f rows)
  update_where-IsMarked c f rows same keeps (present, marked) = (
    is_attempt-update c f rows same ∙ present,
    any_where-update (is_unstarted context) (is_unstarted context) c f rows
        (λ x k. ground (arith, keeps x k)) marked,
  )

  present_of_other :
      (other : AttemptContext) (rows : List AttemptRow)
      → any_where (is_attempt_of other) rows ≡ false
      → any_where (is_attempt other.attempt_id) rows ≡ false
  present_of_other other rows =
      any_where_mono (is_attempt other.attempt_id) (is_attempt_of other) rows
        (λ x h. ground (arith, h))

  other_is_not_marked :
      (other : AttemptContext) (now : ℕ) (rows : List AttemptRow)
      → any_where (is_attempt_of other) rows ≡ false
      → any_where (is_attempt context.attempt_id) rows ≡ true
      → is_unstarted context (started_attempt other now) ≡ false
  other_is_not_marked other now rows unused present =
      elim (Bool-cases (other.attempt_id == context.attempt_id)) [
        | inl e ↦ absurd (
            ground (
              arith,
              present,
              present_of_other other rows unused,
              ap (λ text. any_where (is_attempt text) rows)
                  ((eq_iff other.attempt_id context.attempt_id).0 e),
            ))
        | inr e ↦ ground (arith, e)
      ]

  started_attempt-IsMarked :
      (other : AttemptContext) (now : ℕ) (rows : List AttemptRow)
      → any_where (is_attempt_of other) rows ≡ false
      → IsMarked rows
      → IsMarked (rows ++ started_attempt other now ∷ [])
  unfolding any_where
  started_attempt-IsMarked other now rows unused (present, marked) = (
    any_where-append (is_attempt context.attempt_id) rows (started_attempt other now ∷ [])
        ∙ (rw present refl),
    any_where-append (is_unstarted context) rows (started_attempt other now ∷ [])
        ∙ (rw marked (rw (other_is_not_marked other now rows unused present) refl)),
  )

  pub run-IsMarked :
      (history : List (ℕ × AttemptCommand)) (db : AttemptDb)
      → IsMarked db.attempts
      → IsMarked (run history db).attempts
  run-IsMarked history db h =
      run_attempts IsMarked started_attempt-IsMarked
        (λ other now rows k.
          update_where-IsMarked (is_unstarted other) (outbound_started now) rows (λ x. refl)
            (λ x h. ground (arith, h)) k)
        (λ other stage outcome detail rows k.
          update_where-IsMarked (is_running_attempt other) (staged stage outcome detail) rows
            (λ x. refl) (λ x h. h) k)
        (λ other outcome error committed date now rows k.
          update_where-IsMarked (is_running_attempt other)
            (finished_attempt outcome error committed date now) rows (λ x. refl)
            (λ x h. ground (arith, h)) k)
        (λ other receipt now rows k.
          update_where-IsMarked (is_running_attempt other) (reconciled_attempt receipt now) rows
            (λ x. refl) (λ x h. ground (arith, h)) k)
        history db h
