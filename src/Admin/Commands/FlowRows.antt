-- ===== src/Admin/Commands/FlowRows.antt =====
-- What a call does to the rows of `admin_oauth_flows`, for a condition on the table.
use x_bray.Base.{ℕ, String, none, some, List, ◌≡◌, refl, arith, update_where}
use x_bray.Admin.Flows.{NewFlow, is_open_flow, consumed_flow, create_flow, consume_flow}
use x_bray.Admin.Tables.{AuthDb, FlowRow, committed}
use x_bray.Admin.Sessions.{
  create_session, establish_session, revoke_session, update_activity, insert_event, record_event,
}
use x_bray.Admin.Members.{grant_admin, revoke_admin}
use x_bray.Admin.Cleanup.{cleanup, delete_limit, is_dead_flow}
use x_bray.Admin.Commands.{
  AuthCommand, creates_flow, consumes_flow, creates_session, establishes_session, revokes_session,
  updates_activity, grants_admin, revokes_admin, records_event, cleans_up, step,
}

-- A rule for every call, over a property of the table: it is enough to look at the insertion, at the
-- consumption and at the clean-up.
module _ {ℓ} (P : List FlowRow → Type ℓ) (now : ℕ) (db : AuthDb) (kept : P db.flows) where
  pub step_flows :
      (command : AuthCommand)
      → ((flow : NewFlow) (limit : ℕ)
          → command ≡ creates_flow flow limit
          → P (committed db (create_flow flow limit now db)).flows)
      → ((state handle binding : String)
          → P (update_where (is_open_flow state handle binding now) (consumed_flow now) db.flows))
      → ((batch_size : ℕ) → P (delete_limit (is_dead_flow now) batch_size db.flows))
      → P (step now command db).flows
  unfolding step create_flow consume_flow create_session establish_session revoke_session
      update_activity grant_admin revoke_admin record_event cleanup insert_event
  step_flows (creates_flow flow limit) c u d = c flow limit refl
  step_flows (consumes_flow state handle binding) c u d = u state handle binding
  step_flows (creates_session new) c u d = ground arith
  step_flows (establishes_session source new none) c u d = ground arith
  step_flows (establishes_session source new (some previous)) c u d = ground arith
  step_flows (revokes_session token_hash) c u d = kept
  step_flows (updates_activity clock token_hash idle_seconds) c u d = kept
  step_flows (grants_admin source user granted reason) c u d = ground arith
  step_flows (revokes_admin source user granted reason) c u d = ground arith
  step_flows (records_event source user event reason) c u d = ground arith
  step_flows (cleans_up batch_size) c u d = ground (arith, d batch_size)
