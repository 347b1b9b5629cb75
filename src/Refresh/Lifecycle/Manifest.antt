-- ===== src/Refresh/Lifecycle/Manifest.antt =====
-- `_same_manifest`: whether a start names the run that is stored.
use x_bray.Base.{
  ℕ, String, Bool, true, false, Option, none, some, List, [], ◌∷◌, map, ◌==◌, ◌&&◌, not, nat_eq,
  order_by, find_where,
}
use x_bray.Refresh.Models.{
  RefreshWorkItemSpec, RefreshWorkItemRecord, RefreshRunSnapshot, PlanRow, Db,
}

abbrev pub spec_order : RefreshWorkItemSpec → ℕ
spec_order spec = spec.task_order

abbrev pub spec_of : RefreshWorkItemRecord → RefreshWorkItemSpec
spec_of item = record { item_key = item.item_key; task = item.task; task_order = item.task_order }

abbrev same_spec : RefreshWorkItemSpec → RefreshWorkItemSpec → Bool
same_spec a b = a.item_key == b.item_key && a.task == b.task && nat_eq a.task_order b.task_order

unfoldable pub same_specs : List RefreshWorkItemSpec → List RefreshWorkItemSpec → Bool
same_specs [] [] = true
same_specs (x ∷ xs) (y ∷ ys) = same_spec x y && same_specs xs ys
same_specs _ _ = false

-- `replace(start, …)`: the start with its timestamps normalised.
pub record NormalStart : Type 0 where
  pub run_id : String
  pub cycle_id : String
  pub force : Bool
  pub manifest_version : String
  pub derived_cutoff : Option ℕ
  pub macro_cutoff : Option ℕ
  pub items : List RefreshWorkItemSpec
  pub now : ℕ
  pub lease_expires_at : ℕ
  pub sgs_plan : Option String

abbrev same_flag : Bool → Bool → Bool
same_flag true b = b
same_flag false b = not b

abbrev same_instant : Option ℕ → ℕ → Bool
same_instant none t = false
same_instant (some s) t = nat_eq s t

-- `start.cutoff is None or run.cutoff == start.cutoff`
abbrev cutoff_matches : Option ℕ → Option ℕ → Bool
cutoff_matches stored none = true
cutoff_matches stored (some t) = same_instant stored t

abbrev plan_matches : Option String → Option PlanRow → Bool
plan_matches none none = true
plan_matches (some digest) (some row) = row.plan_sha256 == digest
plan_matches _ _ = false

abbrev is_plan_of : String → PlanRow → Bool
is_plan_of run_id row = row.run_id == run_id

unfoldable pub same_manifest : Db → RefreshRunSnapshot → NormalStart → Bool
unfolding same_specs
same_manifest db snapshot start =
    plan_matches start.sgs_plan (find_where (is_plan_of start.run_id) db.plans)
    && snapshot.run.cycle_id == start.cycle_id
    && same_flag snapshot.run.force start.force
    && snapshot.run.manifest_version == start.manifest_version
    && cutoff_matches snapshot.run.derived_cutoff start.derived_cutoff
    && cutoff_matches snapshot.run.macro_cutoff start.macro_cutoff
    && same_specs (map spec_of snapshot.items) (order_by spec_order start.items)
