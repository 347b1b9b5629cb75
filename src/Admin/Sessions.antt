-- ===== src/Admin/Sessions.antt =====
-- The sessions of backend/db/admin_auth.py: create_session, establish_session, get_session,
-- revoke_session, update_activity, and the audit events.
use x_bray.Base.{
  ℕ, ◌+◌, ◌*◌, ◌/◌, String, Bool, true, false, Option, none, some, List, ◌==◌, ◌&&◌, ◌||◌, leb,
  nat_eq, ltb, is_none, count_where, update_where, find_where, any_where, if◌then◌else◌,
}
use x_bray.Base.Texts.{truncate}
use x_bray.Admin.Tables.{
  SessionRow, MembershipRow, EventRow, AuthDb, Outcome, returned, ◌>>=◌, insert_unique,
}
use x_bray.Admin.Flows.{second}

-- The row of an event: on PostgreSQL an event of nobody has the id of zeroes, any other a fresh one.
abbrev pub event_id_of : Bool → Option String → String → String
event_id_of true none fresh = "00000000-0000-0000-0000-000000000000"
event_id_of true (some user_id) fresh = fresh
event_id_of false user_id fresh = fresh

abbrev pub is_event : String → EventRow → Bool
is_event id row = row.id == id

-- What `_insert_event` is given by its surroundings: the kind of database and `uuid4().hex`.
pub record EventSource : Type 0 where
  pub postgres : Bool
  pub fresh : String

unfoldable pub insert_event :
    EventSource → Option String → String → String → ℕ → AuthDb → Outcome AuthDb
insert_event source user_id event reason created db =
    let id = event_id_of source.postgres user_id source.fresh in
    insert_unique (any_where (is_event id) db.events)
      (record { id = id; user_id = user_id; event = event; created_at = created; reason = reason })
      db.events
    >>= λ events. returned (record db { events = events })

unfoldable pub record_event :
    EventSource → Option String → String → String → ℕ → AuthDb → Outcome (Unit {0} × AuthDb)
unfolding insert_event
record_event source user_id event reason now db =
    insert_event source user_id event (truncate 200 reason) now db >>= λ db'. returned (tt, db')

-- The keyword arguments of `create_session`, less its clock.
pub record NewSession : Type 0 where
  pub session_id : String
  pub token_hash : String
  pub user_id : String
  pub csrf_hash : String
  pub idle_expires_at : ℕ
  pub absolute_expires_at : ℕ

abbrev pub session_row : NewSession → ℕ → SessionRow
session_row new now = record {
  id = new.session_id;
  session_token_hash = new.token_hash;
  user_id = new.user_id;
  created_at = now;
  last_activity_at = now;
  idle_expires_at = new.idle_expires_at;
  absolute_expires_at = new.absolute_expires_at;
  revoked_at = none;
  csrf_token_hash = new.csrf_hash;
}

abbrev pub repeats_session : NewSession → SessionRow → Bool
repeats_session new row = row.id == new.session_id || row.session_token_hash == new.token_hash

abbrev pub insert_session : NewSession → ℕ → AuthDb → Outcome AuthDb
insert_session new now db =
    insert_unique (any_where (repeats_session new) db.sessions) (session_row new now) db.sessions
    >>= λ sessions. returned (record db { sessions = sessions })

unfoldable pub create_session : NewSession → ℕ → AuthDb → Outcome (Unit {0} × AuthDb)
create_session new now db = insert_session new now db >>= λ db'. returned (tt, db')

abbrev pub is_unrevoked : String → SessionRow → Bool
is_unrevoked token_hash row = row.session_token_hash == token_hash && is_none row.revoked_at

abbrev pub revoked_session : ℕ → SessionRow → SessionRow
revoked_session now row = record row { revoked_at = some now }

abbrev pub revoke_token : String → ℕ → AuthDb → AuthDb
revoke_token token_hash now db = record db {
  sessions = update_where (is_unrevoked token_hash) (revoked_session now) db.sessions;
}

abbrev pub revoke_previous : Option String → ℕ → AuthDb → AuthDb
revoke_previous none now db = db
revoke_previous (some previous_token_hash) now db = revoke_token previous_token_hash now db

unfoldable pub establish_session :
    EventSource → NewSession → Option String → ℕ → AuthDb → Outcome (Unit {0} × AuthDb)
unfolding insert_event
establish_session source new previous_token_hash now db = insert_session new now db >>= λ inserted.
    insert_event source (some new.user_id) "login" "google" now
      (revoke_previous previous_token_hash now inserted)
    >>= λ db'. returned (tt, db')

abbrev pub is_valid : String → ℕ → SessionRow → Bool
is_valid token_hash now row =
    row.session_token_hash == token_hash
    && is_none row.revoked_at
    && ltb now row.idle_expires_at
    && ltb now row.absolute_expires_at

abbrev pub is_active_member : String → MembershipRow → Bool
is_active_member user_id row = row.user_id == user_id && is_none row.revoked_at

-- The columns of the LEFT JOIN: the session's, and `active_member`.
pub record SessionRecord : Type 0 where
  pub session : SessionRow
  pub active_member : Option String

abbrev pub member_id : Option MembershipRow → Option String
member_id none = none
member_id (some row) = some row.user_id

abbrev pub join_member : List MembershipRow → Option SessionRow → Option SessionRecord
join_member memberships none = none
join_member memberships (some row) = some (record {
  session = row;
  active_member = member_id (find_where (is_active_member row.user_id) memberships);
})

unfoldable pub get_session : String → ℕ → AuthDb → Option SessionRecord
get_session token_hash now db =
    join_member db.memberships (find_where (is_valid token_hash now) db.sessions)

unfoldable pub revoke_session : String → ℕ → AuthDb → Bool × AuthDb
revoke_session token_hash now db =
    (nat_eq (count_where (is_unrevoked token_hash) db.sessions) 1, revoke_token token_hash now db)

-- How `update_activity` reads the clock. `exact` is the clock of PostgreSQL or a `now` that the caller
-- gives. `of_sqlite` is SQLite's own, in milliseconds: `rounds` says whether julianday rounds the
-- microseconds of a stored text or cuts them off, which its versions do differently, and `borderline`
-- what the doubles of julianday say of a difference of a minute to the millisecond.
pub data ActivityClock : Type 0 where
  exact : ActivityClock
  of_sqlite : Bool → Bool → ActivityClock

abbrev pub millisecond : ℕ
millisecond = 1000

-- A stored instant as julianday reads it, and the reading of 'now', in milliseconds.
abbrev pub stored_milliseconds : Bool → ℕ → ℕ
stored_milliseconds rounds instant =
    if rounds then (instant + 500) / millisecond else instant / millisecond

abbrev pub current_milliseconds : ℕ → ℕ
current_milliseconds now = now / millisecond

-- The WHERE of each statement; `last_activity_at <= now - 60 seconds` is written without a subtraction
-- that stops at 0.
abbrev pub is_stale : ActivityClock → String → ℕ → SessionRow → Bool
is_stale exact token_hash now row =
    is_valid token_hash now row && leb (row.last_activity_at + 60 * second) now
is_stale (of_sqlite rounds borderline) token_hash now row =
    let current = current_milliseconds now in
    let minute_later = stored_milliseconds rounds row.last_activity_at + 60_000 in
    row.session_token_hash == token_hash
    && is_none row.revoked_at
    && ltb current (stored_milliseconds rounds row.idle_expires_at)
    && ltb current (stored_milliseconds rounds row.absolute_expires_at)
    && (ltb minute_later current || (nat_eq minute_later current && borderline))

-- SQLite writes the instants in milliseconds; they stand here in microseconds.
abbrev pub touched : ActivityClock → ℕ → ℕ → SessionRow → SessionRow
touched exact idle_seconds now row =
    let next_idle : ℕ = now + idle_seconds * second in
    record row {
      last_activity_at = now;
      idle_expires_at =
          if ltb row.absolute_expires_at next_idle then row.absolute_expires_at else next_idle;
    }
touched (of_sqlite rounds borderline) idle_seconds now row =
    let current : ℕ = current_milliseconds now in
    let next_idle : ℕ = current + idle_seconds * 1000 in
    record row {
      last_activity_at = current * millisecond;
      idle_expires_at =
          if ltb (stored_milliseconds rounds row.absolute_expires_at) next_idle
          then row.absolute_expires_at
          else next_idle * millisecond;
    }

unfoldable pub update_activity : ActivityClock → String → ℕ → ℕ → AuthDb → Bool × AuthDb
update_activity clock token_hash idle_seconds now db = (
  nat_eq (count_where (is_stale clock token_hash now) db.sessions) 1,
  record db {
    sessions =
        update_where (is_stale clock token_hash now) (touched clock idle_seconds now) db.sessions;
  },
)
