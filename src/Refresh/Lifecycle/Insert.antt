-- ===== src/Refresh/Lifecycle/Insert.antt =====
-- `_insert_run`: the rows of a new run, under the constraints of migration 005.
use x_bray.Base.{
  ℕ, String, Bool, none, some, List, [], ◌∷◌, ◌++◌, ◌==◌, ◌&&◌, ◌||◌, nat_eq, order_by, any_where,
  if◌then◌else◌,
}
use x_bray.Refresh.Models.{
  RefreshRunState, RefreshWorkItemStatus, RefreshWorkItemSpec, RefreshRunRecord,
  RefreshWorkItemRecord, PlanRow, Db,
}
use x_bray.Refresh.Transaction.{integrity, Result, ok, err, ◌>>=◌}
use x_bray.Refresh.Lifecycle.Manifest.{spec_order, NormalStart}

abbrev pub new_run : NormalStart → RefreshRunRecord
new_run start = record {
  run_id = start.run_id;
  cycle_id = start.cycle_id;
  state = RefreshRunState.running;
  force = start.force;
  manifest_version = start.manifest_version;
  derived_cutoff = start.derived_cutoff;
  macro_cutoff = start.macro_cutoff;
  created_at = start.now;
  updated_at = start.now;
  finished_at = none;
  final_result = none;
}

abbrev pub new_item : String → ℕ → RefreshWorkItemSpec → RefreshWorkItemRecord
new_item run_id now spec = record {
  run_id = run_id;
  item_key = spec.item_key;
  task = spec.task;
  task_order = spec.task_order;
  status = RefreshWorkItemStatus.pending;
  attempt = 0;
  claim_token = none;
  claim_expires_at = none;
  claimed_at = none;
  created_at = now;
  updated_at = now;
  finished_at = none;
  series_updated = 0;
  record_count = 0;
  error_code = none;
  claim_generation = 0;
  acquisition_attempts = 0;
  next_attempt_at = none;
  deferral_reason = none;
  last_error_category = none;
  last_error_code = none;
}

-- PRIMARY KEY (run_id, item_key) and UNIQUE (run_id, task_order) of migration 005.
abbrev pub item_conflicts : String → RefreshWorkItemSpec → RefreshWorkItemRecord → Bool
item_conflicts run_id spec row =
    row.run_id == run_id && (row.item_key == spec.item_key || nat_eq row.task_order spec.task_order)

unfoldable pub insert_items :
    String
    → ℕ
    → List RefreshWorkItemSpec
    → List RefreshWorkItemRecord
    → Result (List RefreshWorkItemRecord)
insert_items run_id now [] table = ok table
insert_items run_id now (spec ∷ specs) table =
    let rest = insert_items run_id now specs (table ++ new_item run_id now spec ∷ []) in
    if any_where (item_conflicts run_id spec) table then err integrity else rest

abbrev insert_plan : NormalStart → List PlanRow → List PlanRow
insert_plan start plans = elim start.sgs_plan [
  | none ↦ plans
  | some digest ↦ plans ++ record { run_id = start.run_id; plan_sha256 = digest } ∷ []
]

abbrev pub with_run : NormalStart → Db → List RefreshWorkItemRecord → Db
with_run start db items = record db {
  runs = db.runs ++ new_run start ∷ [];
  items = items;
  plans = insert_plan start db.plans;
}

unfoldable pub insert_run : NormalStart → Db → Result Db
insert_run start db =
    insert_items start.run_id start.now (order_by spec_order start.items) db.items >>= λ items.
    ok (with_run start db items)
