-- ===== src/Admin/Members.antt =====
-- The memberships of backend/db/admin_auth.py: is_admin, grant_admin and revoke_admin.
use x_bray.Base.{
  ℕ, String, Bool, true, false, none, some, List, [], ◌∷◌, ◌++◌, ◌==◌, ◌&&◌, nat_eq, is_none,
  count_where, update_where, any_where,
}
use x_bray.Base.Texts.{truncate}
use x_bray.Admin.Tables.{
  SessionRow, MembershipRow, AuthDb, Outcome, raised, returned, value_error, ◌>>=◌,
}
use x_bray.Admin.Sessions.{EventSource, insert_event, is_active_member, revoked_session}

-- An argument that `UUID(...)` reads: as it was written with the canonical text `str(UUID(...))`,
-- or one on which it raises ValueError.
pub data UuidText : Type 0 where
  uuid : String → String → UuidText
  malformed : String → UuidText

abbrev pub written : UuidText → String
written (uuid text canonical) = text
written (malformed text) = text

abbrev pub parse_uuid : UuidText → Outcome String
parse_uuid (uuid text canonical) = returned canonical
parse_uuid (malformed text) = raised (value_error "badly formed hexadecimal UUID string")

unfoldable pub is_admin : String → AuthDb → Bool
is_admin user_id db = any_where (is_active_member user_id) db.memberships

abbrev pub is_member_row : String → MembershipRow → Bool
is_member_row user_id row = row.user_id == user_id

abbrev pub granted_row : String → String → String → ℕ → MembershipRow
granted_row user_id actor reason now = record {
  user_id = user_id;
  granted_at = now;
  granted_by = some actor;
  revoked_at = none;
  reason = reason;
}

-- INSERT … ON CONFLICT(user_id) DO UPDATE of every other column.
abbrev pub upsert_member :
    Bool → String → String → String → ℕ → List MembershipRow → List MembershipRow
upsert_member false user_id actor reason now rows =
    rows ++ granted_row user_id actor reason now ∷ []
upsert_member true user_id actor reason now rows =
    update_where (is_member_row user_id) (λ row. granted_row row.user_id actor reason now) rows

abbrev pub grant_parsed :
    EventSource → String → String → String → String → ℕ → AuthDb → Outcome (Unit {0} × AuthDb)
grant_parsed source user_id canonical actor reason now db =
    insert_event source (some user_id) "membership_granted" reason now (record db {
      memberships =
          upsert_member (any_where (is_member_row canonical) db.memberships) canonical actor reason
            now db.memberships;
    })
    >>= λ db'. returned (tt, db')

unfoldable pub grant_admin :
    EventSource → UuidText → UuidText → String → ℕ → AuthDb → Outcome (Unit {0} × AuthDb)
unfolding insert_event
grant_admin source user_id granted_by reason now db = parse_uuid user_id >>= λ canonical.
    parse_uuid granted_by >>= λ actor.
    grant_parsed source (written user_id) canonical actor (truncate 200 reason) now db

abbrev pub revoked_member : String → String → ℕ → MembershipRow → MembershipRow
revoked_member actor reason now row = record row {
  revoked_at = some now;
  granted_by = some actor;
  reason = reason;
}

abbrev pub is_users_session : String → SessionRow → Bool
is_users_session user_id row = row.user_id == user_id && is_none row.revoked_at

abbrev pub revoke_members : String → String → String → ℕ → AuthDb → AuthDb
revoke_members user_id actor reason now db = record db {
  memberships =
      update_where (is_active_member user_id) (revoked_member actor reason now) db.memberships;
}

abbrev pub revoke_users_sessions : String → ℕ → AuthDb → AuthDb
revoke_users_sessions user_id now db = record db {
  sessions = update_where (is_users_session user_id) (revoked_session now) db.sessions;
}

abbrev pub revoke_changed :
    Bool → EventSource → String → String → String → ℕ → AuthDb → Outcome (Bool × AuthDb)
revoke_changed false source user_id canonical reason now db = returned (false, db)
revoke_changed true source user_id canonical reason now db =
    insert_event source (some user_id) "membership_revoked" reason now
      (revoke_users_sessions canonical now db)
    >>= λ db'. returned (true, db')

unfoldable pub revoke_admin :
    EventSource → UuidText → UuidText → String → ℕ → AuthDb → Outcome (Bool × AuthDb)
unfolding insert_event
revoke_admin source user_id granted_by reason now db = parse_uuid user_id >>= λ canonical.
    parse_uuid granted_by >>= λ actor.
    revoke_changed (nat_eq (count_where (is_active_member canonical) db.memberships) 1) source
      (written user_id) canonical (truncate 200 reason) now
      (revoke_members canonical actor (truncate 200 reason) now db)
