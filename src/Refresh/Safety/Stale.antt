-- ===== src/Refresh/Safety/Stale.antt =====
-- Answers to a claim that is no longer the answerer's: the completion and the deferral of
-- backend/db/refresh_run_items.py.
use x_bray.Base.{
  ℕ, String, Bool, true, false, ◌≡◌, ◌≢◌, refl, ap, ◌&&◌, List, [], ◌∷◌, arith, is_after, any_where,
  any_where_mono, count_where-eq_zero_of_any, Bool-cases, inl, inr,
}
use x_bray.Refresh.Models.{RefreshWorkItemRecord, Db, is_claimed}
use x_bray.Refresh.Transaction.{Result, ok, err, is_item}
use x_bray.Refresh.Items.Claims.{is_running_run, has_live_lease}
use x_bray.Refresh.Items.Settle.{is_current_claim, has_token}
use x_bray.Refresh.Safety.Fencing.{
  Answer, give, claim_of, instant_of, Arguments, arguments, arguments-instant, run_body, give-eq,
  settle-none,
}

-- The four things that an answer needs, each by itself: a row of its item with its token, a claim of
-- the item with time left, its run running, and the daily lease in its run's hands.
abbrev pub holds_token : String × String × String → RefreshWorkItemRecord → Bool
holds_token key row = is_item key.0 key.1 row && has_token key.2 row.claim_token

abbrev pub is_still_claimed : String × String × String → ℕ → RefreshWorkItemRecord → Bool
is_still_claimed key at row =
    is_item key.0 key.1 row && is_claimed row.status && is_after row.claim_expires_at at

any_where_up :
    (p q : RefreshWorkItemRecord → Bool) (rows : List RefreshWorkItemRecord)
    → ((row : RefreshWorkItemRecord) → p row ≡ true → q row ≡ true)
    → any_where p rows ≡ true
    → any_where q rows ≡ true
any_where_up p q rows wider h = elim (Bool-cases (any_where q rows)) [
  | inl e ↦ e
  | inr e ↦ absurd (ground (arith, h, any_where_mono p q rows wider e))
]

any_where_constant :
    (holds : Bool) (rows : List RefreshWorkItemRecord)
    → any_where (λ row. holds) rows ≡ true
    → holds ≡ true
unfolding any_where
any_where_constant holds [] h = absurd (ground (arith, h))
any_where_constant true (row ∷ rows) h = refl
any_where_constant false (row ∷ rows) h = any_where_constant false rows h

current_needs :
    (db : Db) (key : String × String × String) (at : ℕ)
    → any_where (is_current_claim db key.0 key.1 key.2 at) db.items ≡ true
    → (any_where (holds_token key) db.items
        && any_where (is_still_claimed key at) db.items
        && any_where (is_running_run key.0) db.runs
        && has_live_lease db.lease key.0 at)
      ≡ true
unfolding is_current_claim
current_needs db key at h =
    let current = is_current_claim db key.0 key.1 key.2 at in
    let held = any_where_up current (holds_token key) db.items (λ row k. ground (arith, k)) h in
    let live =
      any_where_up current (is_still_claimed key at) db.items (λ row k. ground (arith, k)) h in
    let around : Bool =
      any_where (is_running_run key.0) db.runs && has_live_lease db.lease key.0 at in
    let led =
      any_where_constant around db.items
        (any_where_up current (λ row. around) db.items (λ row k. ground (arith, k)) h) in
    ground (arith, held, live, led)

none_current :
    (db : Db) (key : String × String × String) (at : ℕ)
    → (any_where (holds_token key) db.items
        && any_where (is_still_claimed key at) db.items
        && any_where (is_running_run key.0) db.runs
        && has_live_lease db.lease key.0 at)
      ≡ false
    → any_where (is_current_claim db key.0 key.1 key.2 at) db.items ≡ false
none_current db key at stale =
    elim (Bool-cases (any_where (is_current_claim db key.0 key.1 key.2 at) db.items)) [
      | inl e ↦ absurd (ground (arith, stale, current_needs db key at e))
      | inr e ↦ e
    ]

-- An answer that lacks one of the four things is refused, and changes nothing: no row of its item has its
-- token, or no claim of its item has time left at the answer's time, or its run is not running, or the
-- run does not hold a live daily lease.
pub stale_answer_is_refused :
    (answer : Answer) (db : Db)
    → (any_where (holds_token (claim_of answer)) db.items
        && any_where (is_still_claimed (claim_of answer) (instant_of answer)) db.items
        && any_where (is_running_run (claim_of answer).0) db.runs
        && has_live_lease db.lease (claim_of answer).0 (instant_of answer))
      ≡ false
    → ((give answer db).0 ≢ ok true) × ((give answer db).1 ≡ db)
stale_answer_is_refused answer db stale = rw (give-eq answer db) (refuse (arguments answer) refl)
  where
    refuse :
        (r : Result Arguments)
        → arguments answer ≡ r
        → ((run_body (claim_of answer) db r).0 ≢ ok true)
          × ((run_body (claim_of answer) db r).1 ≡ db)
    refuse (err e) h = (λ k. ground arith, refl)
    refuse (ok args) h =
        let key = claim_of answer in
        let refused = settle-none db key.0 key.1 key.2 args.0 args.1 (
          count_where-eq_zero_of_any (is_current_claim db key.0 key.1 key.2 args.0) db.items (
            rw (arguments-instant answer args h)
              (none_current db key (instant_of answer) stale))) in
        (λ k. ground (arith, ap (λ r. r.0) refused), ap (λ r. r.1) refused)
