-- ===== src/Refresh/Safety/Exclusive.antt =====
-- The invariant on claims, and the lemmas by which a statement on the tables keeps it.
use x_bray.Base.{
  ℕ, ◌≤◌, String, Bool, true, false, Option, none, some, List, ◌≡◌, refl, subst, sym, ◌==◌, ◌&&◌,
  ◌||◌, not, arith, eq_iff, update_where, count_where, find_where, count_where-update_le,
  count_where_mono, count_where-or,
}
use x_bray.Refresh.Models.{RefreshRunRecord, RefreshWorkItemRecord, Lease, Db, is_running}
use x_bray.Refresh.Transaction.{Result, ok, err, settle, is_run, in_run, is_item}
use x_bray.Refresh.Items.Claims.{is_live_claim, live_in_run, is_owner, has_live_lease}

abbrev pub found_running : Option RefreshRunRecord → Bool
found_running none = false
found_running (some run) = is_running run.state

-- The run is running and owns the daily lease, expired or not.
abbrev pub is_held : Option Lease → List RefreshRunRecord → String → Bool
is_held lease runs run_id = is_owner run_id lease && found_running (find_where (is_run run_id) runs)

-- A live claim of a run that does not hold the lease.
abbrev pub is_stray : ℕ → Option Lease → List RefreshRunRecord → RefreshWorkItemRecord → Bool
is_stray now lease runs row = is_live_claim now row && not (is_held lease runs row.run_id)

-- The rows are keyed, one claim at most is live, and it is of the running run that owns the lease.
pub record ExclusiveClaims (now : ℕ) (runs : List RefreshRunRecord) (lease : Option Lease)
    (items : List RefreshWorkItemRecord) : Type 0 where
  pub keyed : (run_id item_key : String) → count_where (is_item run_id item_key) items ≤ 1
  pub single : count_where (is_live_claim now) items ≤ 1
  pub held : count_where (is_stray now lease runs) items ≡ 0

abbrev pub IsExclusive : ℕ → Db → Type 0
IsExclusive now db = ExclusiveClaims now db.runs db.lease db.items

-- Claims only lapse while time passes.
pub live-earlier :
    (now later : ℕ) (row : RefreshWorkItemRecord)
    → now ≤ later
    → is_live_claim later row ≡ true
    → is_live_claim now row ≡ true
live-earlier now later row h live = ground arith

pub ExclusiveClaims-later :
    (now later : ℕ) (runs : List RefreshRunRecord) (lease : Option Lease)
    (items : List RefreshWorkItemRecord)
    → now ≤ later
    → ExclusiveClaims now runs lease items
    → ExclusiveClaims later runs lease items
ExclusiveClaims-later now later runs lease items h e = record {
  keyed = e.keyed;
  single = omega (
    arith,
    e.single,
    count_where_mono (is_live_claim later) (is_live_claim now) items
        (λ row live. live-earlier now later row h live),
  );
  held = omega (
    arith,
    e.held,
    count_where_mono (is_stray later lease runs) (is_stray now lease runs) items
        (λ row stray. ground (arith, live-earlier now later row h)),
  );
}

-- An update of rows that keeps their keys and makes no claim live.
pub record IsQuiet (now : ℕ) (f : RefreshWorkItemRecord → RefreshWorkItemRecord) : Type 0 where
  pub run_id : (row : RefreshWorkItemRecord) → (f row).run_id ≡ row.run_id
  pub item_key : (row : RefreshWorkItemRecord) → (f row).item_key ≡ row.item_key
  pub live :
      (row : RefreshWorkItemRecord)
      → is_live_claim now (f row) ≡ true
      → is_live_claim now row ≡ true

module _ (p : RefreshWorkItemRecord → Bool) (f : RefreshWorkItemRecord → RefreshWorkItemRecord)
    (items : List RefreshWorkItemRecord) where
  pub keyed-update :
      ((row : RefreshWorkItemRecord) → (f row).run_id ≡ row.run_id)
      → ((row : RefreshWorkItemRecord) → (f row).item_key ≡ row.item_key)
      → (run_id item_key : String)
      → count_where (is_item run_id item_key) (update_where p f items)
        ≤ count_where (is_item run_id item_key) items
  keyed-update hr hk run_id item_key =
      count_where-update_le (is_item run_id item_key) p (is_item run_id item_key) f items
        (λ row h. ground (arith, hr row, hk row))

  pub live-update :
      (now : ℕ)
      → IsQuiet now f
      → count_where (is_live_claim now) (update_where p f items)
        ≤ count_where (is_live_claim now) items
  live-update now q =
      count_where-update_le (is_live_claim now) p (is_live_claim now) f items
        (λ row h. ground (arith, q.live row))

  pub ExclusiveClaims-quiet :
      (now : ℕ) (runs : List RefreshRunRecord) (lease : Option Lease)
      → IsQuiet now f
      → ExclusiveClaims now runs lease items
      → ExclusiveClaims now runs lease (update_where p f items)
  ExclusiveClaims-quiet now runs lease q e = record {
    keyed = λ r k. omega (arith, e.keyed r k, keyed-update q.run_id q.item_key r k);
    single = omega (arith, e.single, live-update now q);
    held = omega (
      arith,
      e.held,
      count_where-update_le (is_stray now lease runs) p (is_stray now lease runs) f items
          (λ row h. ground (arith, q.live row, q.run_id row)),
    );
  }

-- Where no claim is live, runs and lease may change at will.
pub ExclusiveClaims-idle :
    (now : ℕ) (runs : List RefreshRunRecord) (lease : Option Lease)
    (items : List RefreshWorkItemRecord)
    → ((run_id item_key : String) → count_where (is_item run_id item_key) items ≤ 1)
    → count_where (is_live_claim now) items ≡ 0
    → ExclusiveClaims now runs lease items
ExclusiveClaims-idle now runs lease items keyed idle = record {
  keyed = keyed;
  single = omega arith;
  held = omega (
    arith,
    count_where_mono (is_stray now lease runs) (is_live_claim now) items (λ row h. ground arith),
  );
}

module _ {now : ℕ} {runs : List RefreshRunRecord} {lease : Option Lease}
    {items : List RefreshWorkItemRecord} (e : ExclusiveClaims now runs lease items) where
  -- Every live claim is of the run that holds the lease.
  pub live-le :
      (owner : String)
      → ((row : RefreshWorkItemRecord)
          → is_held lease runs row.run_id ≡ true
          → in_run owner row ≡ true)
      → count_where (is_live_claim now) items ≤ count_where (live_in_run owner now) items
  live-le owner h = omega (
    arith,
    e.held,
    count_where_mono (is_live_claim now)
        (λ row. is_stray now lease runs row || live_in_run owner now row) items
        (λ row live. ground (arith, h row)),
    count_where-or (is_stray now lease runs) (live_in_run owner now) items,
  )

  pub idle_of_not_held :
      ((row : RefreshWorkItemRecord) → is_held lease runs row.run_id ≡ false)
      → count_where (is_live_claim now) items ≡ 0
  idle_of_not_held h = omega (
    arith,
    e.held,
    count_where_mono (is_live_claim now) (is_stray now lease runs) items
        (λ row live. ground (arith, h row)),
  )

-- What a transaction body leaves behind: nothing to show where it raised.
abbrev pub Leaves {ℓ} : {A : Type ℓ} → ℕ → Result (A × Db) → Type 0
Leaves now (ok (a, db)) = IsExclusive now db
Leaves now (err e) = Unit

pub settle-Leaves {ℓ} :
    {A : Type ℓ} (now : ℕ) (db : Db) (r : Result (A × Db))
    → IsExclusive now db
    → Leaves now r
    → IsExclusive now (settle db r).1
settle-Leaves now db (ok (a, db')) e h = h
settle-Leaves now db (err x) e h = e

-- A lease has one owner.
pub same_owner :
    (lease : Option Lease) (a b : String)
    → is_owner a lease ≡ true
    → is_owner b lease ≡ true
    → (a == b) ≡ true
same_owner none a b h k = ground arith
same_owner (some lease) a b h k =
    ground (arith, eq_iff lease.owner a, eq_iff lease.owner b, eq_iff a b)

-- More may hold the lease, never less.
pub ExclusiveClaims-grow :
    (now : ℕ) (runs runs' : List RefreshRunRecord) (lease lease' : Option Lease)
    (items : List RefreshWorkItemRecord)
    → ((run_id : String) → is_held lease runs run_id ≡ true → is_held lease' runs' run_id ≡ true)
    → ExclusiveClaims now runs lease items
    → ExclusiveClaims now runs' lease' items
ExclusiveClaims-grow now runs runs' lease lease' items h e = record {
  keyed = e.keyed;
  single = e.single;
  held = omega (
    arith,
    e.held,
    count_where_mono (is_stray now lease' runs') (is_stray now lease runs) items
        (λ row s. ground (arith, h row.run_id)),
  );
}

-- While the run that owns the lease is not running, no claim is live.
found_running-same :
    (runs : List RefreshRunRecord) (a b : String)
    → (a == b) ≡ true
    → found_running (find_where (is_run b) runs) ≡ false
    → found_running (find_where (is_run a) runs) ≡ false
found_running-same runs a b same h =
    subst (λ x. found_running (find_where (is_run x) runs) ≡ false) (sym ((eq_iff a b).0 same)) h

pub idle_of_finished :
    {now : ℕ} {runs : List RefreshRunRecord} {lease : Option Lease}
    {items : List RefreshWorkItemRecord} (owner : String)
    → is_owner owner lease ≡ true
    → found_running (find_where (is_run owner) runs) ≡ false
    → ExclusiveClaims now runs lease items
    → count_where (is_live_claim now) items ≡ 0
idle_of_finished {runs} {lease} owner owns finished e = idle_of_not_held e (λ row.
    ground (arith, same_owner lease row.run_id owner, found_running-same runs row.run_id owner))

-- Without a lease no claim is live.
pub idle_of_no_lease :
    {now : ℕ} {runs : List RefreshRunRecord} {items : List RefreshWorkItemRecord}
    → ExclusiveClaims now runs none items
    → count_where (is_live_claim now) items ≡ 0
idle_of_no_lease e = idle_of_not_held e (λ row. refl)

pub has_live_lease-is_owner :
    (lease : Option Lease) (run_id : String) (now : ℕ)
    → has_live_lease lease run_id now ≡ true
    → is_owner run_id lease ≡ true
has_live_lease-is_owner none run_id now h = h
has_live_lease-is_owner (some lease) run_id now h = ground arith
