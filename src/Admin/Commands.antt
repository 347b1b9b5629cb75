-- ===== src/Admin/Commands.antt =====
-- Histories of calls of backend/db/admin_auth.py, each at its instant.
pub mod SessionRows
pub mod Revival
pub mod Lockout
pub mod FlowRows
pub mod OneUse
pub mod RateLimit
use x_bray.Base.{
  ℕ, String, Bool, true, false, Option, none, some, List, [], ◌∷◌, ◌==◌, ◌&&◌, leb, not,
}
use x_bray.Admin.Tables.{AuthDb, committed}
use x_bray.Admin.Flows.{NewFlow, create_flow, consume_flow}
use x_bray.Admin.Sessions.{
  ActivityClock, EventSource, NewSession, create_session, establish_session, revoke_session,
  update_activity, record_event,
}
use x_bray.Admin.Members.{UuidText, uuid, grant_admin, revoke_admin}
use x_bray.Admin.Cleanup.{cleanup}

pub data AuthCommand : Type 0 where
  creates_flow : NewFlow → ℕ → AuthCommand
  consumes_flow : String → String → String → AuthCommand
  creates_session : NewSession → AuthCommand
  establishes_session : EventSource → NewSession → Option String → AuthCommand
  revokes_session : String → AuthCommand
  updates_activity : ActivityClock → String → ℕ → AuthCommand
  grants_admin : EventSource → UuidText → UuidText → String → AuthCommand
  revokes_admin : EventSource → UuidText → UuidText → String → AuthCommand
  records_event : EventSource → Option String → String → String → AuthCommand
  cleans_up : ℕ → AuthCommand

-- What the call leaves behind; a call that raised has rolled back.
unfoldable pub step : ℕ → AuthCommand → AuthDb → AuthDb
unfolding create_flow consume_flow create_session establish_session revoke_session update_activity
    grant_admin revoke_admin record_event cleanup
step now (creates_flow flow max_per_hour) db = committed db (create_flow flow max_per_hour now db)
step now (consumes_flow state_hash handle_hash binding_hash) db =
    (consume_flow state_hash handle_hash binding_hash now db).1
step now (creates_session new) db = committed db (create_session new now db)
step now (establishes_session source new previous) db =
    committed db (establish_session source new previous now db)
step now (revokes_session token_hash) db = (revoke_session token_hash now db).1
step now (updates_activity clock token_hash idle_seconds) db =
    (update_activity clock token_hash idle_seconds now db).1
step now (grants_admin source user_id granted_by reason) db =
    committed db (grant_admin source user_id granted_by reason now db)
step now (revokes_admin source user_id granted_by reason) db =
    committed db (revoke_admin source user_id granted_by reason now db)
step now (records_event source user_id event reason) db =
    committed db (record_event source user_id event reason now db)
step now (cleans_up batch_size) db = committed db (cleanup batch_size now db)

unfoldable pub run : List (ℕ × AuthCommand) → AuthDb → AuthDb
unfolding step
run [] db = db
run ((now, command) ∷ rest) db = run rest (step now command db)

-- The instants never go back, from `start` to `end`.
unfoldable pub in_order : ℕ → List (ℕ × AuthCommand) → ℕ → Bool
in_order start [] end = leb start end
in_order start ((now, command) ∷ rest) end = leb start now && in_order now rest end

-- The call inserts a session with this token.
abbrev pub issues_token : String → AuthCommand → Bool
issues_token token_hash (creates_session new) = new.token_hash == token_hash
issues_token token_hash (establishes_session source new previous) = new.token_hash == token_hash
issues_token token_hash other = false

-- The call grants the membership of this user.
abbrev pub grants_user : String → AuthCommand → Bool
grants_user user_id (grants_admin source (uuid text canonical) granted_by reason) =
    canonical == user_id
grants_user user_id other = false

-- The call inserts a flow with this state.
abbrev pub issues_state : String → AuthCommand → Bool
issues_state state_hash (creates_flow flow max_per_hour) = flow.state_hash == state_hash
issues_state state_hash other = false

unfoldable pub never : (AuthCommand → Bool) → List (ℕ × AuthCommand) → Bool
never p [] = true
never p ((now, command) ∷ rest) = not (p command) && never p rest
