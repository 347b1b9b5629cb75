-- ===== src/Refresh/Safety/Insert.antt =====
-- The rows of a new run, and the invariant on claims.
use x_bray.Base.{
  ℕ, ◌≤◌, String, true, false, Option, List, [], ◌∷◌, ◌++◌, ◌≡◌, order_by, inl, inr, arith, eq_iff,
  count_where, find_where, any_where, count_where_mono, count_where-append,
  count_where-eq_zero_of_any, find_where-append, Bool-cases, Option-cases,
}
use x_bray.Refresh.Models.{RefreshRunRecord, RefreshWorkItemRecord, RefreshWorkItemSpec, Lease, Db}
use x_bray.Refresh.Transaction.{Result, ok, err, ◌>>=◌, is_run, is_item}
use x_bray.Refresh.Items.Claims.{is_live_claim}
use x_bray.Refresh.Lifecycle.Manifest.{spec_order, NormalStart}
use x_bray.Refresh.Lifecycle.Insert.{
  new_run, new_item, item_conflicts, insert_items, with_run, insert_run,
}
use x_bray.Refresh.Safety.Exclusive.{
  is_held, is_stray, ExclusiveClaims, IsExclusive, ExclusiveClaims-grow,
}

module _ (now at : ℕ) (runs : List RefreshRunRecord) (lease : Option Lease) (run_id : String) where
  keyed_insert :
      (spec : RefreshWorkItemSpec) (table : List RefreshWorkItemRecord) (r k : String)
      → any_where (item_conflicts run_id spec) table ≡ false
      → count_where (is_item r k) table ≤ 1
      → count_where (is_item r k) (table ++ new_item run_id at spec ∷ []) ≤ 1
  unfolding count_where
  keyed_insert spec table r k fresh h = elim (Bool-cases (is_item r k (new_item run_id at spec))) [
    | inl same ↦ ground (
      arith,
      same,
      count_where-append (is_item r k) table (new_item run_id at spec ∷ []),
      count_where-eq_zero_of_any (item_conflicts run_id spec) table fresh,
      count_where_mono (is_item r k) (item_conflicts run_id spec) table (λ row at_key. ground (
        arith,
        same,
        eq_iff run_id r,
        eq_iff spec.item_key k,
        eq_iff row.run_id r,
        eq_iff row.item_key k,
        eq_iff row.run_id run_id,
        eq_iff row.item_key spec.item_key,
      )),
    )
    | inr other ↦
        ground (arith, other, count_where-append (is_item r k) table (new_item run_id at spec ∷ []))
  ]

  insert_item-Exclusive :
      (spec : RefreshWorkItemSpec) (table : List RefreshWorkItemRecord)
      → any_where (item_conflicts run_id spec) table ≡ false
      → ExclusiveClaims now runs lease table
      → ExclusiveClaims now runs lease (table ++ new_item run_id at spec ∷ [])
  unfolding count_where
  insert_item-Exclusive spec table fresh e = record {
    keyed = λ r k. keyed_insert spec table r k fresh (e.keyed r k);
    single = omega (
      arith,
      e.single,
      count_where-append (is_live_claim now) table (new_item run_id at spec ∷ []),
    );
    held = omega (
      arith,
      e.held,
      count_where-append (is_stray now lease runs) table (new_item run_id at spec ∷ []),
    );
  }

  abbrev LeavesItems : Result (List RefreshWorkItemRecord) → Type 0
  LeavesItems (ok items) = ExclusiveClaims now runs lease items
  LeavesItems (err x) = Unit

  insert_items-Exclusive :
      (specs : List RefreshWorkItemSpec) (table : List RefreshWorkItemRecord)
      → ExclusiveClaims now runs lease table
      → LeavesItems (insert_items run_id at specs table)
  unfolding insert_items
  insert_items-Exclusive [] table e = e
  insert_items-Exclusive (spec ∷ specs) table e =
      elim (Bool-cases (any_where (item_conflicts run_id spec) table)) [
        | inl taken ↦ rw taken tt
        | inr fresh ↦ rw fresh (
            insert_items-Exclusive specs (table ++ new_item run_id at spec ∷ [])
              (insert_item-Exclusive spec table fresh e))
      ]

-- A run more: who held the lease holds it still.
insert_run-held :
    (start : NormalStart) (lease : Option Lease) (runs : List RefreshRunRecord) (run_id : String)
    → is_held lease runs run_id ≡ true
    → is_held lease (runs ++ new_run start ∷ []) run_id ≡ true
insert_run-held start lease runs run_id h = elim (Option-cases (find_where (is_run run_id) runs)) [
  | inl missing ↦ ground (arith, missing, h)
  | inr (run, found) ↦
      ground (arith, found, h, find_where-append (is_run run_id) runs (new_run start ∷ []) run)
]

abbrev pub LeavesRun : ℕ → Result Db → Type 0
LeavesRun now (ok db) = IsExclusive now db
LeavesRun now (err e) = Unit

with_run-LeavesRun :
    (start : NormalStart) (now : ℕ) (db : Db) (r : Result (List RefreshWorkItemRecord))
    → LeavesItems now start.now db.runs db.lease start.run_id r
    → LeavesRun now (r >>= λ items. ok (with_run start db items))
with_run-LeavesRun start now db (ok items) e =
    ExclusiveClaims-grow now db.runs (db.runs ++ new_run start ∷ []) db.lease db.lease items
      (insert_run-held start db.lease db.runs) e
with_run-LeavesRun start now db (err x) e = tt

pub insert_run-LeavesRun :
    (start : NormalStart) (now : ℕ) (db : Db)
    → IsExclusive now db
    → LeavesRun now (insert_run start db)
unfolding insert_run
insert_run-LeavesRun start now db e =
    with_run-LeavesRun start now db
      (insert_items start.run_id start.now (order_by spec_order start.items) db.items)
      (insert_items-Exclusive now start.now db.runs db.lease start.run_id
        (order_by spec_order start.items) db.items e)
