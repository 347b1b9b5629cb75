-- ===== src/Refresh/Safety/LegacyOrder.antt =====
-- The order of claims under the manifests before v6.
use mathlib.Core.Option
use x_bray.Base.{
  ◌≢◌, count_where-eq_zero, ℕ, ◌≤◌, String, Bool, true, false, Option, none, some, List, [], ◌∷◌,
  ◌≡◌, refl, ◌∙◌, sym, ap, subst, ◌==◌, ◌&&◌, not, inl, inr, arith, eq_iff, eq_refl, ltb, nat_eq,
  select_where, order_by, any_where, head_of, OrderedFrom, count_where, find_where,
  order_by-OrderedFrom, any_where-order_by, any_where-below, any_where-select, any_where-head,
  Bool-cases, if◌then◌else◌, find_where-update, find_where-holds, count_where-eq_zero_of_single,
  any_where_mono,
}
use x_bray.Refresh.Models.{RefreshWorkItemRecord, Db}
use x_bray.Refresh.Transaction.{is_item, task_order_of}
use x_bray.Refresh.Items.Claim.{
  waits_before, expected_is_blocked, is_eligible, take_legacy_claim, take_eligible,
  claim_legacy_item,
}

-- The head of an ordered table has the least key.
head-least :
    (p : RefreshWorkItemRecord → Bool) (rows : List RefreshWorkItemRecord)
    (x : RefreshWorkItemRecord)
    → head_of rows ≡ some x
    → OrderedFrom task_order_of 0 rows
    → any_where (λ r. ltb r.task_order x.task_order && p r) rows ≡ false
head-least p [] x h o = absurd (ground arith)
head-least p (r ∷ rows) x h o =
    let same : r.task_order ≡ x.task_order = ground (arith, h) in
    any_where-below task_order_of p x.task_order r.task_order (r ∷ rows) (omega (arith, same))
      (omega arith, o.1)

any_where-eq_false_of_count :
    (q : RefreshWorkItemRecord → Bool) (rows : List RefreshWorkItemRecord)
    → count_where q rows ≡ 0
    → any_where q rows ≡ false
unfolding any_where count_where
any_where-eq_false_of_count q [] h = refl
any_where-eq_false_of_count q (r ∷ rows) h = ground (arith, any_where-eq_false_of_count q rows)

-- A condition that some row of the table meets holds of the one row with the key.
single-holds :
    (key q : RefreshWorkItemRecord → Bool) (rows : List RefreshWorkItemRecord)
    (stored : RefreshWorkItemRecord)
    → find_where key rows ≡ some stored
    → count_where key rows ≤ 1
    → ((r : RefreshWorkItemRecord) → q r ≡ true → key r ≡ true)
    → any_where q rows ≡ true
    → q stored ≡ true
single-holds key q rows stored f single narrow some_row = elim (Bool-cases (q stored)) [
  | inl holds ↦ holds
  | inr fails ↦ absurd (
      ground (
        arith,
        some_row,
        any_where-eq_false_of_count q rows
            (count_where-eq_zero_of_single key q rows stored f single narrow fails),
      ))
]

abbrev row_or : RefreshWorkItemRecord → Option RefreshWorkItemRecord → RefreshWorkItemRecord
row_or default none = default
row_or default (some row) = row

some-eq : {a b : RefreshWorkItemRecord} → some a ≡ some b → a ≡ b
some-eq {a} h = ap (row_or a) h

take_eligible-row :
    (run_id token : String) (now expires_at : ℕ) (eligible row : RefreshWorkItemRecord) (db : Db)
    → (take_eligible run_id token now expires_at (some eligible) db).0 ≡ some row
    → (stored : RefreshWorkItemRecord) × (find_where (is_item run_id eligible.item_key) db.items
        ≡ some stored)
      × (count_where (is_item run_id eligible.item_key) db.items ≡ 1)
      × (take_legacy_claim token now expires_at stored ≡ row)
unfolding take_eligible
take_eligible-row run_id token now expires_at eligible row db h =
    let key = is_item run_id eligible.item_key in
    let f = take_legacy_claim token now expires_at in
    elim (Bool-cases (nat_eq (count_where key db.items) 1)) [
      | inr missed ↦ absurd (ground (arith, rw missed at h))
      | inl one ↦
          by_found (find_where key db.items) refl (ground (arith, one))
            (sym (find_where-update key key f db.items (λ r. refl)) ∙ (rw one at h))
    ]
  where
    by_found :
        (found : Option RefreshWorkItemRecord)
        → find_where (is_item run_id eligible.item_key) db.items ≡ found
        → count_where (is_item run_id eligible.item_key) db.items ≡ 1
        → Option.map
            (λ x.
              if is_item run_id eligible.item_key x
              then take_legacy_claim token now expires_at x
              else x)
            (find_where (is_item run_id eligible.item_key) db.items)
          ≡ some row
        → (stored : RefreshWorkItemRecord) × (find_where (is_item run_id eligible.item_key) db.items
            ≡ some stored)
          × (count_where (is_item run_id eligible.item_key) db.items ≡ 1)
          × (take_legacy_claim token now expires_at stored ≡ row)
    by_found none e one k = absurd (ground (arith, rw e at k))
    by_found (some stored) e one k = (
      stored,
      e,
      one,
      some-eq (rw (e, find_where-holds (is_item run_id eligible.item_key) db.items stored e) at k),
    )

module _ (run_id : String) (expected : Option String) (now : ℕ)
    (items : List RefreshWorkItemRecord) where
  abbrev candidates : List RefreshWorkItemRecord
  candidates = order_by task_order_of (select_where (is_eligible run_id expected now) items)

  -- A test of the candidates is one of the table.
  candidates-any :
      (q : RefreshWorkItemRecord → Bool)
      → any_where q candidates ≡ any_where (λ r. is_eligible run_id expected now r && q r) items
  candidates-any q =
      any_where-order_by task_order_of q (select_where (is_eligible run_id expected now) items)
      ∙ any_where-select q (is_eligible run_id expected now) items

  -- The candidate that is taken is eligible, and a condition that it meets holds of a row.
  candidate-meets :
      (q : RefreshWorkItemRecord → Bool) (e : RefreshWorkItemRecord)
      → head_of candidates ≡ some e
      → q e ≡ true
      → any_where (λ r. is_eligible run_id expected now r && q r) items ≡ true
  candidate-meets q e h holds = sym (candidates-any q) ∙ any_where-head q candidates e h holds

  candidate-IsEligible :
      (e : RefreshWorkItemRecord)
      → head_of candidates ≡ some e
      → is_eligible run_id expected now e ≡ true
  candidate-IsEligible e h = elim (Bool-cases (is_eligible run_id expected now e)) [
    | inl eligible ↦ eligible
    | inr refused ↦ absurd (
        true-not-false (
          sym (candidate-meets (λ r. not (is_eligible run_id expected now r)) e h (ap not refused))
          ∙ any_where-eq_false_of_count
              (λ r. is_eligible run_id expected now r && not (is_eligible run_id expected now r))
              items
              (count_where-eq_zero
                (λ r. is_eligible run_id expected now r && not (is_eligible run_id expected now r))
                items (λ r. and_not (is_eligible run_id expected now r)))))
  ]
    where
      and_not : (b : Bool) → (b && not b) ≡ false
      and_not true = refl
      and_not false = refl

      true-not-false : true ≢ false
      true-not-false k = ground arith

  stored-order :
      (e stored : RefreshWorkItemRecord)
      → head_of candidates ≡ some e
      → find_where (is_item run_id e.item_key) items ≡ some stored
      → count_where (is_item run_id e.item_key) items ≡ 1
      → stored.task_order ≡ e.task_order
  stored-order e stored h f one =
      let q = λ (r : RefreshWorkItemRecord).
        is_eligible run_id expected now r
        && (r.item_key == e.item_key && nat_eq r.task_order e.task_order) in
      let met =
        candidate-meets (λ r. r.item_key == e.item_key && nat_eq r.task_order e.task_order) e h
          (rw (eq_refl e.item_key) (ground arith)) in
      let holds =
        single-holds (is_item run_id e.item_key) q items stored f (omega (arith, one))
          (λ r k. ground (arith, k)) met in
      ground (arith, holds)

-- No row of the run that waits comes before the taken candidate.
none_before :
    (run_id : String) (expected : Option String) (now : ℕ) (items : List RefreshWorkItemRecord)
    (e stored : RefreshWorkItemRecord)
    → expected_is_blocked run_id expected now items ≡ false
    → head_of (candidates run_id expected now items) ≡ some e
    → find_where (is_item run_id e.item_key) items ≡ some stored
    → count_where (is_item run_id e.item_key) items ≡ 1
    → any_where (waits_before run_id stored.task_order now) items ≡ false
unfolding expected_is_blocked
none_before run_id none now items e stored free h f one =
    let least =
      head-least (λ r. true) (candidates run_id none now items) e h
        (order_by-OrderedFrom task_order_of (select_where (is_eligible run_id none now) items)) in
    let order = stored-order run_id none now items e stored h f one in
    any_where_mono (waits_before run_id stored.task_order now)
      (λ r. is_eligible run_id none now r && (ltb r.task_order e.task_order && true)) items
      (λ r k. ground (arith, k, order))
      (sym (candidates-any run_id none now items (λ r. ltb r.task_order e.task_order && true))
        ∙ least)
none_before run_id (some key) now items e stored free h f one =
    let eligible = candidate-IsEligible run_id (some key) now items e h in
    let same : e.item_key ≡ key = (eq_iff e.item_key key).0 (ground (arith, eligible)) in
    rw (subst (λ k. find_where (is_item run_id k) items ≡ some stored) same f) at free

nothing-taken :
    (run_id token : String) (now expires_at : ℕ) (db : Db) (row : RefreshWorkItemRecord)
    → (take_eligible run_id token now expires_at none db).0 ≢ some row
unfolding take_eligible
nothing-taken run_id token now expires_at db row h = ground arith

-- A claim under an older manifest that returns a row has put it under the new token, and no item of
-- the run that waits for a claim has a smaller task order.
pub legacy_claim_in_order :
    (run_id : String) (expected : Option String) (token : String) (now expires_at : ℕ) (db : Db)
    (row : RefreshWorkItemRecord)
    → (claim_legacy_item run_id expected token now expires_at db).0 ≡ some row
    → (row.claim_token ≡ some token)
      × (row.claim_expires_at ≡ some expires_at)
      × (any_where (waits_before run_id row.task_order now) db.items ≡ false)
unfolding claim_legacy_item
legacy_claim_in_order run_id expected token now expires_at db row h =
    elim (Bool-cases (expected_is_blocked run_id expected now db.items)) [
      | inl blocked ↦ absurd (ground (arith, rw blocked at h))
      | inr free ↦
          by_head (head_of (candidates run_id expected now db.items)) refl free (rw free at h)
    ]
  where
    by_head :
        (found : Option RefreshWorkItemRecord)
        → head_of (candidates run_id expected now db.items) ≡ found
        → expected_is_blocked run_id expected now db.items ≡ false
        → (take_eligible run_id token now expires_at found db).0 ≡ some row
        → (row.claim_token ≡ some token)
          × (row.claim_expires_at ≡ some expires_at)
          × (any_where (waits_before run_id row.task_order now) db.items ≡ false)
    by_head none e free k = absurd (nothing-taken run_id token now expires_at db row k)
    by_head (some eligible) e free k =
        let taken = take_eligible-row run_id token now expires_at eligible row db k in
        let waits =
          none_before run_id expected now db.items eligible taken.0 free e taken.1 taken.2 in
        subst
          (λ r.
            (r.claim_token ≡ some token)
            × (r.claim_expires_at ≡ some expires_at)
            × (any_where (waits_before run_id r.task_order now) db.items ≡ false))
          taken.3 (refl, refl, waits)
