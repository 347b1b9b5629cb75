-- ===== src/Refresh/Safety/Settle.antt =====
-- Deferrals and completions, and the invariant on claims.
use x_bray.Base.{ℕ, String, refl, arith}
use x_bray.Refresh.Models.{
  RefreshWorkItemRecord, RefreshWorkItemCompletion, RefreshWorkItemDeferral, Db,
}
use x_bray.Refresh.Items.Settle.{is_current_claim, settle_claim, deferred_item, completed_item}
use x_bray.Refresh.Safety.Exclusive.{IsExclusive, IsQuiet, ExclusiveClaims-quiet, Leaves}

pub deferred_item-IsQuiet :
    (request : RefreshWorkItemDeferral) (at retry_at now : ℕ)
    → IsQuiet now (deferred_item request at retry_at)
deferred_item-IsQuiet request at retry_at now = record {
  run_id = λ row. refl;
  item_key = λ row. refl;
  live = λ row h. ground arith;
}

pub completed_item-IsQuiet :
    (completion : RefreshWorkItemCompletion) (at now : ℕ)
    → IsQuiet now (completed_item completion at)
completed_item-IsQuiet completion at now = record {
  run_id = λ row. refl;
  item_key = λ row. refl;
  live = λ row h. ground arith;
}

pub settle_claim-Leaves :
    (run_id item_key token : String) (at now : ℕ)
    (set : RefreshWorkItemRecord → RefreshWorkItemRecord) (db : Db)
    → IsQuiet now set
    → IsExclusive now db
    → Leaves now (settle_claim run_id item_key token at set db)
unfolding settle_claim
settle_claim-Leaves run_id item_key token at now set db q e =
    ExclusiveClaims-quiet (is_current_claim db run_id item_key token at) set db.items now db.runs
      db.lease q e
