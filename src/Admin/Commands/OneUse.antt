-- ===== src/Admin/Commands/OneUse.antt =====
-- The one use of an OAuth flow over any history.
use x_bray.Base.{
  ℕ, ◌≤◌, String, Bool, true, false, none, List, [], ◌∷◌, ◌≡◌, arith, ◌==◌, any_where,
  any_where-append, any_where-update, any_where-cleared, any_where_mono, find_where-none, subst,
}
use x_bray.Admin.Flows.{NewFlow, flow_row, is_open_flow, consumed_flow, create_flow, consume_flow}
use x_bray.Admin.Tables.{AuthDb, FlowRow, committed}
use x_bray.Admin.Cleanup.{is_dead_flow}
use x_bray.Admin.Cleanup.Deletion.{any_where-delete_limit}
use x_bray.Admin.Commands.FlowRows.{step_flows}
use x_bray.Admin.Commands.{AuthCommand, creates_flow, step, run, in_order, issues_state, never}

module _ (state_hash handle_hash binding_hash : String) where
  abbrev pub open_at : ℕ → FlowRow → Bool
  open_at now = is_open_flow state_hash handle_hash binding_hash now

  create_flow-closed :
      (earlier now limit : ℕ) (flow : NewFlow) (db : AuthDb)
      → earlier ≤ now
      → (flow.state_hash == state_hash) ≡ false
      → any_where (open_at now) db.flows ≡ false
      → any_where (open_at now) (committed db (create_flow flow limit now db)).flows ≡ false
  unfolding create_flow any_where
  create_flow-closed earlier now limit flow db later other h =
      ground (arith, any_where-append (open_at now) db.flows (flow_row flow now ∷ []))

  stays_closed :
      (earlier now : ℕ) (rows : List FlowRow)
      → earlier ≤ now
      → any_where (open_at earlier) rows ≡ false
      → any_where (open_at now) rows ≡ false
  stays_closed earlier now rows later h =
      any_where_mono (open_at now) (open_at earlier) rows (λ row is_open. ground arith) h

  step-closed :
      (earlier now : ℕ) (command : AuthCommand) (db : AuthDb)
      → earlier ≤ now
      → issues_state state_hash command ≡ false
      → any_where (open_at earlier) db.flows ≡ false
      → any_where (open_at now) (step now command db).flows ≡ false
  step-closed earlier now command db later unissued h =
      step_flows (λ rows. any_where (open_at now) rows ≡ false) now db closed command
        (λ flow limit same.
          create_flow-closed earlier now limit flow db later
            (let e : issues_state state_hash (creates_flow flow limit) ≡ false =
                subst (λ c. issues_state state_hash c ≡ false) same unissued in
              e)
            closed)
        (λ state handle binding.
          any_where-update (open_at now) (open_at now) (is_open_flow state handle binding now)
            (consumed_flow now) db.flows (λ row dead. ground arith) closed)
        (λ batch_size.
          any_where-delete_limit (open_at now) (is_dead_flow now) batch_size db.flows closed)
    where
      closed : any_where (open_at now) db.flows ≡ false
      closed = stays_closed earlier now db.flows later h

  pub run-closed :
      (history : List (ℕ × AuthCommand)) (earlier end : ℕ) (db : AuthDb)
      → in_order earlier history end ≡ true
      → never (issues_state state_hash) history ≡ true
      → any_where (open_at earlier) db.flows ≡ false
      → any_where (open_at end) (run history db).flows ≡ false
  unfolding run in_order never
  run-closed [] earlier end db o n h = stays_closed earlier end db.flows (ground arith) h
  run-closed ((now, command) ∷ rest) earlier end db o n h =
      run-closed rest now end (step now command db) (ground arith) (ground arith)
        (step-closed earlier now command db (ground arith) (ground arith) h)

  -- After a `consume_flow` of a state, handle and browser binding, whether it found a flow or not, no
  -- later `consume_flow` of the three finds one, whatever calls come between in the order of their
  -- instants, unless one of them inserts a flow with the same state hash.
  pub flow_is_used_once :
      (history : List (ℕ × AuthCommand)) (now end : ℕ) (db : AuthDb)
      → in_order now history end ≡ true
      → never (issues_state state_hash) history ≡ true
      → (consume_flow state_hash handle_hash binding_hash end
          (run history (consume_flow state_hash handle_hash binding_hash now db).1)).0
        ≡ none
  unfolding consume_flow
  flow_is_used_once history now end db o n = find_where-none (open_at end) _ (
      run-closed history now end (consume_flow state_hash handle_hash binding_hash now db).1 o n
        (any_where-cleared (open_at now) (consumed_flow now) db.flows (λ row. ground arith)))
