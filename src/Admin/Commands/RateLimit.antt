-- ===== src/Admin/Commands/RateLimit.antt =====
-- How many flows a browser can begin in an hour.
use x_bray.Base.{
  ℕ, ◌≤◌, String, Bool, true, false, List, [], ◌∷◌, ◌≡◌, arith, ltb, count_where,
  count_where-update_le, count_where_mono, count_where-append, eq_iff, subst,
}
use x_bray.Admin.Flows.{NewFlow, flow_row, is_open_flow, consumed_flow, create_flow, is_recent_flow}
use x_bray.Admin.Tables.{AuthDb, FlowRow, committed}
use x_bray.Admin.Cleanup.{is_dead_flow}
use x_bray.Admin.Cleanup.Deletion.{count_where-delete_limit}
use x_bray.Admin.Commands.FlowRows.{step_flows}
use x_bray.Admin.Commands.{AuthCommand, creates_flow, step, run, in_order, never}

-- The call creates a flow under a larger limit than this.
abbrev pub exceeds : ℕ → AuthCommand → Bool
exceeds most (creates_flow flow max_per_hour) = ltb most max_per_hour
exceeds most other = false

unfoldable pub recent_flows : String → ℕ → AuthDb → ℕ
recent_flows binding_hash now db = count_where (is_recent_flow binding_hash now) db.flows

module _ (binding_hash : String) (most : ℕ) where
  abbrev recent : ℕ → List FlowRow → ℕ
  recent now rows = count_where (is_recent_flow binding_hash now) rows

  create_flow-recent :
      (now limit : ℕ) (flow : NewFlow) (db : AuthDb)
      → limit ≤ most
      → recent now db.flows ≤ most
      → recent now (committed db (create_flow flow limit now db)).flows ≤ most
  unfolding create_flow count_where
  create_flow-recent now limit flow db small h = ground (
    arith,
    eq_iff flow.binding_hash binding_hash,
    count_where-append (is_recent_flow binding_hash now) db.flows (flow_row flow now ∷ []),
  )

  recent_mono :
      (earlier now : ℕ) (rows : List FlowRow)
      → earlier ≤ now
      → recent now rows ≤ recent earlier rows
  recent_mono earlier now rows later =
      count_where_mono (is_recent_flow binding_hash now) (is_recent_flow binding_hash earlier) rows
        (λ row h. ground arith)

  step-recent :
      (earlier now : ℕ) (command : AuthCommand) (db : AuthDb)
      → earlier ≤ now
      → exceeds most command ≡ false
      → recent earlier db.flows ≤ most
      → recent now (step now command db).flows ≤ most
  step-recent earlier now command db later small h =
      step_flows (λ rows. recent now rows ≤ most) now db kept command
        (λ flow limit same.
          create_flow-recent now limit flow db
            (within flow limit (subst (λ c. exceeds most c ≡ false) same small)) kept)
        (λ state handle binding. omega (
          arith,
          kept,
          count_where-update_le (is_recent_flow binding_hash now)
              (is_open_flow state handle binding now) (is_recent_flow binding_hash now)
              (consumed_flow now) db.flows (λ row m. ground arith),
        ))
        (λ batch_size. omega (
          arith,
          kept,
          count_where-delete_limit (is_recent_flow binding_hash now) (is_dead_flow now) batch_size
              db.flows,
        ))
    where
      kept : recent now db.flows ≤ most
      kept = omega (arith, h, recent_mono earlier now db.flows later)

      within :
          (flow : NewFlow) (limit : ℕ)
          → exceeds most (creates_flow flow limit) ≡ false
          → limit ≤ most
      within flow limit e = ground arith

  -- As long as no call uses a larger limit, the flows of a browser whose creation lies within the hour
  -- before the end of a history, its calls in the order of their instants, are never more than the
  -- limit if they were not at its start.
  pub recent_flows_are_limited :
      (history : List (ℕ × AuthCommand)) (start end : ℕ) (db : AuthDb)
      → in_order start history end ≡ true
      → never (exceeds most) history ≡ true
      → recent_flows binding_hash start db ≤ most
      → recent_flows binding_hash end (run history db) ≤ most
  unfolding run in_order never recent_flows
  recent_flows_are_limited [] start end db o n h =
      omega (arith, h, recent_mono start end db.flows (ground arith))
  recent_flows_are_limited ((now, command) ∷ rest) start end db o n h =
      recent_flows_are_limited rest now end (step now command db) (ground arith) (ground arith)
        (step-recent start now command db (ground arith) (ground arith) h)
