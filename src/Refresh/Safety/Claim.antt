-- ===== src/Refresh/Safety/Claim.antt =====
-- Claims and the invariant on claims: what the steps of a claim do to it.
use x_bray.Base.{
  ℕ, String, Bool, true, Option, none, some, List, [], ◌∷◌, ◌≡◌, refl, ◌||◌, arith, eq_iff,
  update_where, count_where, count_where-update_le, count_where-or,
}
use x_bray.Refresh.Models.{RefreshRunRecord, RefreshWorkItemRecord, Lease, AccessRow, Backend}
use x_bray.Refresh.Transaction.{Result, ok, err, type_error, is_item}
use x_bray.Refresh.Items.Claims.{is_live_claim, failed_claim}
use x_bray.Refresh.Items.V6.{
  skip, cooldown, dependency, take, fault, consider, put_off, is_cooldown_target,
  is_dependency_target, apply_cooldown, apply_dependency, choose_from, take_claim, is_takeable,
  take_chosen,
}
use x_bray.Refresh.Safety.Exclusive.{
  is_held, is_stray, ExclusiveClaims, IsQuiet, keyed-update, live-update, ExclusiveClaims-quiet,
}

-- Exclusive claims of which none is live.
pub record IsIdle (now : ℕ) (runs : List RefreshRunRecord) (lease : Option Lease)
    (items : List RefreshWorkItemRecord) : Type 0 where
  pub exclusive : ExclusiveClaims now runs lease items
  pub idle : count_where (is_live_claim now) items ≡ 0

pub failed_claim-IsQuiet :
    (now at : ℕ) (finished : Option ℕ) (code : String) → IsQuiet now (failed_claim at finished code)
failed_claim-IsQuiet now at finished code = record {
  run_id = λ row. refl;
  item_key = λ row. refl;
  live = λ row h. ground arith;
}

put_off-IsQuiet : (now at next : ℕ) (reason : String) → IsQuiet now (put_off at next reason)
put_off-IsQuiet now at next reason = record {
  run_id = λ row. refl;
  item_key = λ row. refl;
  live = λ row h. h;
}

module _ (now : ℕ) (runs : List RefreshRunRecord) (lease : Option Lease)
    (p : RefreshWorkItemRecord → Bool) (f : RefreshWorkItemRecord → RefreshWorkItemRecord)
    (items : List RefreshWorkItemRecord) where
  IsIdle-quiet :
      IsQuiet now f → IsIdle now runs lease items → IsIdle now runs lease (update_where p f items)
  IsIdle-quiet q r = record {
    exclusive = ExclusiveClaims-quiet p f items now runs lease q r.exclusive;
    idle = omega (arith, r.idle, live-update p f items now q);
  }

  -- With no claim live, one item of the run that holds the lease may be claimed.
  pub ExclusiveClaims-take :
      (run_id key : String)
      → ((row : RefreshWorkItemRecord) → p row ≡ true → is_item run_id key row ≡ true)
      → ((row : RefreshWorkItemRecord) → (f row).run_id ≡ row.run_id)
      → ((row : RefreshWorkItemRecord) → (f row).item_key ≡ row.item_key)
      → is_held lease runs run_id ≡ true
      → IsIdle now runs lease items
      → ExclusiveClaims now runs lease (update_where p f items)
  ExclusiveClaims-take run_id key hp hr hk held r = record {
    keyed = λ s k. omega (arith, r.exclusive.keyed s k, keyed-update p f items hr hk s k);
    single = omega (
      arith,
      r.idle,
      r.exclusive.keyed run_id key,
      count_where-or (is_item run_id key) (is_live_claim now) items,
      count_where-update_le (is_live_claim now) p
          (λ row. is_item run_id key row || is_live_claim now row) f items
          (λ row h. ground (arith, hp row)),
    );
    held = omega (
      arith,
      r.idle,
      count_where-update_le (is_stray now lease runs) p (is_live_claim now) f items
          (λ row h. ground (arith, hp row, hr row, eq_iff row.run_id run_id, held)),
    );
  }

abbrev pub LeavesIdle :
    ℕ
    → List RefreshRunRecord
    → Option Lease
    → Result (Option RefreshWorkItemRecord × List RefreshWorkItemRecord)
    → Type 0
LeavesIdle now runs lease (ok (chosen, table)) = IsIdle now runs lease table
LeavesIdle now runs lease (err e) = Unit

module _ (backend : Backend) (access : List AccessRow) (now : ℕ) (run_id : String)
    (expected : Option String) (all_rows : List RefreshWorkItemRecord)
    (runs : List RefreshRunRecord) (lease : Option Lease) where
  -- The choice writes deferrals only.
  pub choose_from-IsIdle :
      (rows table : List RefreshWorkItemRecord)
      → IsIdle now runs lease table
      → LeavesIdle now runs lease
          (choose_from backend access now run_id expected all_rows rows table)
  unfolding choose_from apply_cooldown apply_dependency
  choose_from-IsIdle [] table r = r
  choose_from-IsIdle (row ∷ rows) table r =
      elim (consider backend access now expected all_rows row)
        as (λ d. LeavesIdle now runs lease (elim d [
          | skip ↦ choose_from backend access now run_id expected all_rows rows table
          | cooldown at ↦
              choose_from backend access now run_id expected all_rows rows
                (apply_cooldown run_id row.item_key now at table)
          | dependency at ↦
              choose_from backend access now run_id expected all_rows rows
                (apply_dependency run_id row.item_key now at table)
          | take ↦ ok (some row, table)
          | fault ↦ err (type_error "nullable text")
        ])) [
          | skip ↦ choose_from-IsIdle rows table r
          | cooldown at ↦
              choose_from-IsIdle rows (apply_cooldown run_id row.item_key now at table) (
                IsIdle-quiet now runs lease (is_cooldown_target run_id row.item_key)
                  (put_off now at "publisher_cooldown") table (put_off-IsQuiet now now at _) r)
          | dependency at ↦
              choose_from-IsIdle rows (apply_dependency run_id row.item_key now at table) (
                IsIdle-quiet now runs lease (is_dependency_target run_id row.item_key)
                  (put_off now at "source_dependency_deferred") table (put_off-IsQuiet now now at _)
                  r)
          | take ↦ r
          | fault ↦ tt
        ]

module _ (now expires_at : ℕ) (run_id token : String) (runs : List RefreshRunRecord)
    (lease : Option Lease) (held : is_held lease runs run_id ≡ true) where
  pub take_chosen-Exclusive :
      (chosen : Option RefreshWorkItemRecord) (table : List RefreshWorkItemRecord)
      → IsIdle now runs lease table
      → ExclusiveClaims now runs lease (take_chosen run_id token now expires_at chosen table).1
  unfolding take_chosen
  take_chosen-Exclusive none table r = r.exclusive
  take_chosen-Exclusive (some chosen) table r =
      ExclusiveClaims-take now runs lease (is_takeable run_id chosen.item_key now)
        (take_claim token now expires_at) table run_id chosen.item_key (λ row h. ground arith)
        (λ row. refl) (λ row. refl) held r
