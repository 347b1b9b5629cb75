-- ===== src/Admin/Commands/SessionRows.antt =====
-- What a call does to the rows of `admin_sessions`, for any condition on a row.
use x_bray.Base.{
  ℕ, String, Bool, true, false, none, some, List, [], ◌∷◌, ◌≡◌, refl, arith, update_where,
  any_where, any_where-append, any_where-update, Bool-cases, inl, inr, ◌++◌,
}
use x_bray.Admin.Tables.{AuthDb, SessionRow}
use x_bray.Admin.Flows.{create_flow, consume_flow}
use x_bray.Admin.Sessions.{
  ActivityClock, NewSession, is_stale, is_unrevoked, session_row, touched, revoked_session,
  create_session, establish_session, revoke_session, update_activity, insert_event, record_event,
}
use x_bray.Admin.Members.{uuid, malformed, grant_admin, revoke_admin, is_users_session}
use x_bray.Admin.Cleanup.{cleanup, is_dead_session}
use x_bray.Admin.Cleanup.Deletion.{any_where-delete_limit}
use x_bray.Admin.Commands.{
  AuthCommand, creates_flow, consumes_flow, creates_session, establishes_session, revokes_session,
  updates_activity, grants_admin, revokes_admin, records_event, cleans_up, step,
}

-- The call inserts a session row that meets the condition.
abbrev pub inserts : (SessionRow → Bool) → ℕ → AuthCommand → Bool
inserts r now (creates_session new) = r (session_row new now)
inserts r now (establishes_session source new previous) = r (session_row new now)
inserts r now other = false

-- If the call updates the activity of a session, its clock is one of these.
abbrev pub updates_by : (ActivityClock → Bool) → AuthCommand → Bool
updates_by permits (updates_activity clock token_hash idle_seconds) = permits clock
updates_by permits other = true

-- A rule for every call: `p` before it and `r` after it are conditions on a session row.
module _ (p r : SessionRow → Bool) (now : ℕ)
    (stays : (row : SessionRow) → p row ≡ false → r row ≡ false)
    (stays_revoked : (row : SessionRow) → r row ≡ false → r (revoked_session now row) ≡ false)
    (permits : ActivityClock → Bool)
    (stays_touched : (clock : ActivityClock) (token_hash : String) (idle_seconds : ℕ)
        (row : SessionRow)
      → permits clock ≡ true
      → p row ≡ false
      → is_stale clock token_hash now row ≡ true
      → r (touched clock idle_seconds now row) ≡ false) where
  any_where-stays : (rows : List SessionRow) → any_where p rows ≡ false → any_where r rows ≡ false
  unfolding any_where
  any_where-stays [] h = refl
  any_where-stays (x ∷ xs) h = ground (arith, stays x, any_where-stays xs)

  any_where-revoked :
      (c : SessionRow → Bool) (rows : List SessionRow)
      → any_where r rows ≡ false
      → any_where r (update_where c (revoked_session now) rows) ≡ false
  any_where-revoked c rows h =
      any_where-update r r c (revoked_session now) rows
        (λ row dead. ground (arith, stays_revoked row dead)) h

  any_where-touched :
      (clock : ActivityClock) (token_hash : String) (idle_seconds : ℕ) (rows : List SessionRow)
      → permits clock ≡ true
      → any_where p rows ≡ false
      → any_where r
          (update_where (is_stale clock token_hash now) (touched clock idle_seconds now) rows)
        ≡ false
  any_where-touched clock token_hash idle_seconds rows permitted h =
      any_where-update p r (is_stale clock token_hash now) (touched clock idle_seconds now) rows
        (λ row dead. elim (Bool-cases (is_stale clock token_hash now row)) [
          | inl e ↦ rw e (stays_touched clock token_hash idle_seconds row permitted dead e)
          | inr e ↦ rw e (stays row dead)
        ])
        h

  any_where-insert :
      (new : NewSession) (rows : List SessionRow)
      → r (session_row new now) ≡ false
      → any_where r rows ≡ false
      → any_where r (rows ++ session_row new now ∷ []) ≡ false
  unfolding any_where
  any_where-insert new rows fresh h =
      ground (arith, any_where-append r rows (session_row new now ∷ []))

  pub step_sessions :
      (command : AuthCommand) (db : AuthDb)
      → inserts r now command ≡ false
      → updates_by permits command ≡ true
      → any_where p db.sessions ≡ false
      → any_where r (step now command db).sessions ≡ false
  unfolding step create_flow consume_flow create_session establish_session revoke_session
      update_activity grant_admin revoke_admin record_event cleanup insert_event
  step_sessions (creates_flow flow limit) db i u h = ground (arith, any_where-stays db.sessions h)
  step_sessions (consumes_flow state handle binding) db i u h = any_where-stays db.sessions h
  step_sessions (creates_session new) db i u h =
      ground (arith, any_where-stays db.sessions h, any_where-insert new db.sessions i)
  step_sessions (establishes_session source new none) db i u h =
      ground (arith, any_where-stays db.sessions h, any_where-insert new db.sessions i)
  step_sessions (establishes_session source new (some previous)) db i u h = ground (
    arith,
    any_where-stays db.sessions h,
    any_where-insert new db.sessions i,
    any_where-revoked (is_unrevoked previous) (db.sessions ++ session_row new now ∷ []),
  )
  step_sessions (revokes_session token_hash) db i u h =
      any_where-revoked (is_unrevoked token_hash) db.sessions (any_where-stays db.sessions h)
  step_sessions (updates_activity clock token_hash idle_seconds) db i u h =
      any_where-touched clock token_hash idle_seconds db.sessions u h
  step_sessions (grants_admin source user granted reason) db i u h =
      ground (arith, any_where-stays db.sessions h)
  step_sessions (revokes_admin source (malformed text) granted reason) db i u h =
      any_where-stays db.sessions h
  step_sessions (revokes_admin source (uuid text canonical) granted reason) db i u h = ground (
    arith,
    any_where-stays db.sessions h,
    any_where-revoked (is_users_session canonical) db.sessions (any_where-stays db.sessions h),
  )
  step_sessions (records_event source user event reason) db i u h =
      ground (arith, any_where-stays db.sessions h)
  step_sessions (cleans_up batch_size) db i u h = ground (
    arith,
    any_where-stays db.sessions h,
    any_where-delete_limit r (is_dead_session now) batch_size db.sessions,
  )
