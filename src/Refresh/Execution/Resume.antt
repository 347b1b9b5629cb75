-- ===== src/Refresh/Execution/Resume.antt =====
-- backend/refresh_run_state.py: a run is read, and resumed under a renewed lease.
use mathlib.Core.Option
use x_bray.Base.{ℕ, ◌+◌, String, Option, none, some, map, ◌==◌, find_where, if◌then◌else◌}
use x_bray.Refresh.Models.{aware, RefreshRunSnapshot, RefreshRunStart, Db}
use x_bray.Refresh.Transaction.{not_found, Result, ok, err, read_snapshot}
use x_bray.Refresh.Lifecycle.Manifest.{spec_of}
use x_bray.Refresh.Lifecycle.Create.{create_or_resume_run}

-- In microseconds.
abbrev pub lease_duration : ℕ
lease_duration = 1800000000

abbrev pub claim_duration : ℕ
claim_duration = 600000000

abbrev pub lease_expiry : ℕ → ℕ
lease_expiry now = now + lease_duration

abbrev pub found_or_raise : String → Option RefreshRunSnapshot → Result RefreshRunSnapshot
found_or_raise run_id none = err (not_found run_id)
found_or_raise run_id (some snapshot) = ok snapshot

unfoldable pub get_refresh_run : String → Db → Result RefreshRunSnapshot
unfolding read_snapshot
get_refresh_run run_id db = found_or_raise run_id (read_snapshot db run_id)

-- `read_sgs_plan(run_id)`, by its digest.
abbrev pub read_sgs_plan : String → Db → Option String
read_sgs_plan run_id db =
    Option.map (λ row. row.plan_sha256) (find_where (λ row. row.run_id == run_id) db.plans)

abbrev pub resume_start : RefreshRunSnapshot → ℕ → Db → RefreshRunStart
resume_start snapshot now db = record {
  run_id = snapshot.run.run_id;
  cycle_id = snapshot.run.cycle_id;
  force = snapshot.run.force;
  manifest_version = snapshot.run.manifest_version;
  derived_cutoff = Option.map aware snapshot.run.derived_cutoff;
  macro_cutoff = Option.map aware snapshot.run.macro_cutoff;
  items = map spec_of snapshot.items;
  now = aware now;
  lease_expires_at = aware (lease_expiry now);
  sgs_plan =
      if snapshot.run.manifest_version == "daily-refresh-v6"
      then read_sgs_plan snapshot.run.run_id db
      else none;
}

unfoldable pub resume_refresh_run : RefreshRunSnapshot → ℕ → Db → Result RefreshRunSnapshot × Db
unfolding create_or_resume_run
resume_refresh_run snapshot now db = create_or_resume_run (resume_start snapshot now db) db
