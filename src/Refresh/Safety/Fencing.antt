-- ===== src/Refresh/Safety/Fencing.antt =====
-- Completions and deferrals as answers to a claim, fenced by its token and by the daily lease.
use x_bray.Base.{
  ℕ, ◌≤◌, String, Bool, true, false, ◌≡◌, ◌≢◌, refl, sym, ap, ◌∙◌, ◌&&◌, inl, inr, arith, any_where,
  count_where, update_where, count_where-eq_zero, count_where-update_le, update_where-none,
  Bool-cases,
}
use x_bray.Refresh.Models.{
  RawTimestamp, aware, RefreshWorkItemRecord, RefreshWorkItemCompletion, RefreshWorkItemDeferral,
  Db, is_claimed,
}
use x_bray.Refresh.Transaction.{Result, ok, err, ◌>>=◌, transaction, settle, utc_iso}
use x_bray.Refresh.Items.Claims.{is_running_run, has_live_lease}
use x_bray.Refresh.Items.Settle.{
  is_current_claim, settle_claim, deferred_item, completed_item, deferral_times,
  defer_work_item_claim, complete_work_item_claim,
}
use x_bray.Refresh.Safety.Exclusive.{live-earlier}

pub data Answer : Type 0 where
  completes : RefreshWorkItemCompletion → Answer
  defers : RefreshWorkItemDeferral → Answer

abbrev pub give : Answer → Db → Result Bool × Db
give (completes completion) db = complete_work_item_claim completion db
give (defers request) db = defer_work_item_claim request db

-- The claim that an answer names: the run, the item and the token.
abbrev pub claim_of : Answer → String × String × String
claim_of (completes c) = (c.run_id, c.item_key, c.claim_token)
claim_of (defers d) = (d.run_id, d.item_key, d.claim_token)

-- The answer's arguments, after its timestamps were read: its time, and the row that it makes.
abbrev pub Arguments : Type 0
Arguments = ℕ × (RefreshWorkItemRecord → RefreshWorkItemRecord)

abbrev pub arguments : Answer → Result Arguments
arguments (completes c) = utc_iso c.finished_at "finished_at" >>= λ at. ok (at, completed_item c at)
arguments (defers d) = deferral_times d >>= λ times. ok (times.0, deferred_item d times.0 times.1)

abbrev pub run_body : String × String × String → Db → Result Arguments → Result Bool × Db
run_body key db (ok (at, set)) = settle db (settle_claim key.0 key.1 key.2 at set db)
run_body key db (err e) = (err e, db)

bind-body {ℓ} :
    {B : Type ℓ} (db : Db) (key : String × String × String) (m : Result B) (f : B → Arguments)
    → transaction (m >>= λ b. ok (settle_claim key.0 key.1 key.2 (f b).0 (f b).1)) db
      ≡ run_body key db (m >>= λ b. ok (f b))
unfolding transaction
bind-body db key (ok b) f = refl
bind-body db key (err e) f = refl

pub give-eq : (a : Answer) (db : Db) → give a db ≡ run_body (claim_of a) db (arguments a)
unfolding complete_work_item_claim defer_work_item_claim
give-eq (completes c) db =
    bind-body db (c.run_id, c.item_key, c.claim_token) (utc_iso c.finished_at "finished_at")
      (λ at. (at, completed_item c at))
give-eq (defers d) db =
    bind-body db (d.run_id, d.item_key, d.claim_token) (deferral_times d)
      (λ times. (times.0, deferred_item d times.0 times.1))

-- The instant that an answer carries, 0 where it carries none.
abbrev pub instant : RawTimestamp → ℕ
instant (aware t) = t
instant _ = 0

abbrev pub instant_of : Answer → ℕ
instant_of (completes c) = instant c.finished_at
instant_of (defers d) = instant d.now

pub arguments-instant :
    (a : Answer) (args : Arguments) → arguments a ≡ ok args → args.0 ≡ instant_of a
unfolding utc_iso deferral_times
arguments-instant (completes c) args h = ground arith
arguments-instant (defers d) args h = ground arith

-- An answered row is no longer claimed.
arguments-set :
    (a : Answer) (args : Arguments) (row : RefreshWorkItemRecord)
    → arguments a ≡ ok args
    → is_claimed (args.1 row).status ≡ false
unfolding utc_iso deferral_times
arguments-set (completes c) args row h = ground arith
arguments-set (defers d) args row h = ground arith

module _ (db : Db) (run_id item_key token : String) (at : ℕ) where
  -- A current claim shows that the run is running and holds the lease.
  count-holds :
      count_where (is_current_claim db run_id item_key token at) db.items ≡ 1
      → (any_where (is_running_run run_id) db.runs && has_live_lease db.lease run_id at) ≡ true
  unfolding is_current_claim
  count-holds h =
      elim (Bool-cases
        (any_where (is_running_run run_id) db.runs && has_live_lease db.lease run_id at)) [
          | inl holds ↦ holds
          | inr lost ↦ ground (
            arith,
            count_where-eq_zero (is_current_claim db run_id item_key token at) db.items
                (λ row. ground arith),
          )
        ]

  unfoldable after : (RefreshWorkItemRecord → RefreshWorkItemRecord) → Db
  after set = record db {
    items = update_where (is_current_claim db run_id item_key token at) set db.items;
  }

  -- Once answered, the claim is not current again.
  answered-count :
      (later : ℕ) (set : RefreshWorkItemRecord → RefreshWorkItemRecord)
      → at ≤ later
      → ((row : RefreshWorkItemRecord) → is_claimed (set row).status ≡ false)
      → (any_where (is_running_run run_id) db.runs && has_live_lease db.lease run_id at) ≡ true
      → count_where (is_current_claim (after set) run_id item_key token later) (after set).items ≡ 0
  unfolding is_current_claim after
  answered-count later set h hs holds =
      let none_left = λ (row : RefreshWorkItemRecord). false in
      omega (
        arith,
        count_where-update_le (is_current_claim (after set) run_id item_key token later)
            (is_current_claim db run_id item_key token at) none_left set db.items
            (λ row k. ground (arith, hs row, live-earlier at later row h)),
        count_where-eq_zero none_left db.items (λ row. refl),
      )

  -- With no current claim an answer is refused, and nothing changes.
  pub settle-none :
      (set : RefreshWorkItemRecord → RefreshWorkItemRecord)
      → count_where (is_current_claim db run_id item_key token at) db.items ≡ 0
      → settle db (settle_claim run_id item_key token at set db) ≡ (ok false, db)
  unfolding settle_claim
  settle-none set h =
      rw (h, update_where-none (is_current_claim db run_id item_key token at) set db.items h) refl

  settle-true :
      (set : RefreshWorkItemRecord → RefreshWorkItemRecord)
      → (settle db (settle_claim run_id item_key token at set db)).0 ≡ ok true
      → count_where (is_current_claim db run_id item_key token at) db.items ≡ 1
  unfolding settle_claim
  settle-true set h = ground arith

refuse-after :
    (first second : Answer) (db : Db) (key : String × String × String) (r r' : Result Arguments)
    → arguments first ≡ r
    → arguments second ≡ r'
    → instant_of first ≤ instant_of second
    → (run_body key db r).0 ≡ ok true
    → ((run_body key (run_body key db r).1 r').0 ≢ ok true)
      × ((run_body key (run_body key db r).1 r').1 ≡ (run_body key db r).1)
unfolding after settle_claim
refuse-after first second db key (err e) r' h h' later given = absurd (ground arith)
refuse-after first second db key (ok args) (err e) h h' later given = (λ k. ground arith, refl)
refuse-after first second db key (ok args) (ok args') h h' later given =
    let counted = settle-true db key.0 key.1 key.2 args.0 args.1 given in
    let settled = after db key.0 key.1 key.2 args.0 args.1 in
    let refused = settle-none settled key.0 key.1 key.2 args'.0 args'.1 (
      answered-count db key.0 key.1 key.2 args.0 args'.0 args.1
        (omega (arith, arguments-instant first args h, arguments-instant second args' h'))
        (λ row. arguments-set first args row h)
        (count-holds db key.0 key.1 key.2 args.0 counted)) in
    (λ k. ground (arith, ap (λ r. r.0) refused), ap (λ r. r.1) refused)

-- A claim is answered once: after a completion or a deferral that returned true, each completion
-- and each deferral under the same token, at that time or later, does not return true and changes
-- nothing.
pub answer_is_final :
    (first second : Answer) (db : Db)
    → claim_of second ≡ claim_of first
    → instant_of first ≤ instant_of second
    → (give first db).0 ≡ ok true
    → ((give second (give first db).1).0 ≢ ok true)
      × ((give second (give first db).1).1 ≡ (give first db).1)
answer_is_final first second db same later given =
    let k = claim_of first in
    rw (give-eq first db, give-eq second (run_body k db (arguments first)).1, same)
      (refuse-after first second db k (arguments first) (arguments second) refl refl later
        (sym (ap (λ r. r.0) (give-eq first db)) ∙ given))
