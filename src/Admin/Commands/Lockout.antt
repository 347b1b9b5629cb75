-- ===== src/Admin/Commands/Lockout.antt =====
-- What a withdrawn membership leaves of its user's sessions.
use x_bray.Base.{
  ℕ, String, Bool, true, false, Option, none, some, List, [], ◌∷◌, ◌≡◌, arith, ◌==◌, find_where,
  update_where, any_where, eq_iff, any_where-append, any_where-update, any_where-cleared,
  find_where-none,
}
use x_bray.Base.Texts.{truncate}
use x_bray.Admin.Tables.{AuthDb, SessionRow, MembershipRow, returned}
use x_bray.Admin.Flows.{create_flow, consume_flow}
use x_bray.Admin.Sessions.{
  EventSource, is_active_member, SessionRecord, create_session, establish_session, revoke_session,
  update_activity, insert_event, record_event, get_session, join_member, revoked_session,
}
use x_bray.Admin.Members.{
  UuidText, uuid, malformed, is_admin, is_member_row, granted_row, upsert_member, revoked_member,
  is_users_session, grant_admin, revoke_admin,
}
use x_bray.Admin.Cleanup.{cleanup}
use x_bray.Admin.Commands.{
  AuthCommand, creates_flow, consumes_flow, creates_session, establishes_session, revokes_session,
  updates_activity, grants_admin, revokes_admin, records_event, cleans_up, step, run, grants_user,
  never,
}

module _ (user_id : String) where
  upsert_member-other :
      (present : Bool) (canonical actor reason : String) (now : ℕ) (rows : List MembershipRow)
      → (canonical == user_id) ≡ false
      → any_where (is_active_member user_id) rows ≡ false
      → any_where (is_active_member user_id) (upsert_member present canonical actor reason now rows)
        ≡ false
  unfolding any_where
  upsert_member-other false canonical actor reason now rows other h = ground (
    arith,
    any_where-append (is_active_member user_id) rows (granted_row canonical actor reason now ∷ []),
  )
  upsert_member-other true canonical actor reason now rows other h =
      any_where-update (is_active_member user_id) (is_active_member user_id)
        (is_member_row canonical) _ rows
        (λ row dead. ground (
          arith,
          eq_iff row.user_id canonical,
          eq_iff row.user_id user_id,
          eq_iff canonical user_id,
        ))
        h

  revoked_member-inactive :
      (canonical actor reason : String) (now : ℕ) (rows : List MembershipRow)
      → any_where (is_active_member user_id) rows ≡ false
      → any_where
          (is_active_member user_id)
          (update_where (is_active_member canonical) (revoked_member actor reason now) rows)
        ≡ false
  revoked_member-inactive canonical actor reason now rows h =
      any_where-update (is_active_member user_id) (is_active_member user_id)
        (is_active_member canonical) _ rows (λ row dead. ground arith) h

  step-is_admin :
      (now : ℕ) (command : AuthCommand) (db : AuthDb)
      → grants_user user_id command ≡ false
      → any_where (is_active_member user_id) db.memberships ≡ false
      → any_where (is_active_member user_id) (step now command db).memberships ≡ false
  unfolding step create_flow consume_flow create_session establish_session revoke_session
      update_activity grant_admin revoke_admin record_event cleanup insert_event
  step-is_admin now (creates_flow flow limit) db i h = ground arith
  step-is_admin now (consumes_flow state handle binding) db i h = h
  step-is_admin now (creates_session new) db i h = ground arith
  step-is_admin now (establishes_session source new none) db i h = ground arith
  step-is_admin now (establishes_session source new (some previous)) db i h = ground arith
  step-is_admin now (revokes_session token_hash) db i h = h
  step-is_admin now (updates_activity clock token_hash idle_seconds) db i h = h
  step-is_admin now (grants_admin source (malformed text) granted reason) db i h = h
  step-is_admin now (grants_admin source (uuid text canonical) (malformed other) reason) db i h = h
  step-is_admin now (grants_admin source (uuid text canonical) (uuid other actor) reason) db i h =
      ground (
        arith,
        upsert_member-other (any_where (is_member_row canonical) db.memberships) canonical actor
            (truncate 200 reason) now db.memberships i h,
      )
  step-is_admin now (revokes_admin source (malformed text) granted reason) db i h = h
  step-is_admin now (revokes_admin source (uuid text canonical) (malformed other) reason) db i h = h
  step-is_admin now (revokes_admin source (uuid text canonical) (uuid other actor) reason) db i h =
      ground
        (arith, revoked_member-inactive canonical actor (truncate 200 reason) now db.memberships h)
  step-is_admin now (records_event source user event reason) db i h = ground arith
  step-is_admin now (cleans_up batch_size) db i h = ground arith

  run-is_admin :
      (history : List (ℕ × AuthCommand)) (db : AuthDb)
      → never (grants_user user_id) history ≡ true
      → is_admin user_id db ≡ false
      → is_admin user_id (run history db) ≡ false
  unfolding run never is_admin
  run-is_admin [] db n h = h
  run-is_admin ((now, command) ∷ rest) db n h =
      run-is_admin rest (step now command db) (ground arith)
        (step-is_admin now command db (ground arith) h)

  revoke_admin-is_admin :
      (source : EventSource) (text : String) (granted_by : UuidText) (reason : String) (now : ℕ)
      (db db' : AuthDb)
      → revoke_admin source (uuid text user_id) granted_by reason now db ≡ returned (true, db')
      → (is_admin user_id db' ≡ false) × (any_where (is_users_session user_id) db'.sessions ≡ false)
  unfolding revoke_admin is_admin insert_event
  revoke_admin-is_admin source text (malformed other) reason now db db' h = ground arith
  revoke_admin-is_admin source text (uuid other actor) reason now db db' h = ground (
    arith,
    any_where-cleared (is_active_member user_id) (revoked_member actor (truncate 200 reason) now)
        db.memberships (λ row. ground arith),
    any_where-cleared (is_users_session user_id) (revoked_session now) db.sessions
        (λ row. ground arith),
  )

  no_member :
      (other : String) (memberships : List MembershipRow)
      → any_where (is_active_member user_id) memberships ≡ false
      → other ≡ user_id
      → find_where (is_active_member other) memberships ≡ none
  no_member other memberships none_left same =
      rw same (find_where-none (is_active_member user_id) memberships none_left)

  active_member_of_join :
      (memberships : List MembershipRow) (joined : Option SessionRow) (found : SessionRecord)
      → any_where (is_active_member user_id) memberships ≡ false
      → join_member memberships joined ≡ some found
      → found.session.user_id ≡ user_id
      → found.active_member ≡ none
  active_member_of_join memberships none found none_left h same = ground arith
  active_member_of_join memberships (some row) found none_left h same =
      ground (arith, no_member row.user_id memberships)

  -- After `revoke_admin` has withdrawn a user's membership, in any history without a new grant to that
  -- user, whatever session of the user is found at any instant comes without an active membership.
  pub revoked_user_has_no_access :
      (source : EventSource) (text : String) (granted_by : UuidText) (reason : String) (now : ℕ)
      (db db' : AuthDb) (history : List (ℕ × AuthCommand)) (token_hash : String) (later : ℕ)
      (found : SessionRecord)
      → revoke_admin source (uuid text user_id) granted_by reason now db ≡ returned (true, db')
      → never (grants_user user_id) history ≡ true
      → get_session token_hash later (run history db') ≡ some found
      → found.session.user_id ≡ user_id
      → found.active_member ≡ none
  unfolding get_session is_admin
  revoked_user_has_no_access source text granted_by reason now db db' history token_hash later found
        h n g same =
      active_member_of_join (run history db').memberships _ found
        (run-is_admin history db' n
          (revoke_admin-is_admin source text granted_by reason now db db' h).0)
        g same
