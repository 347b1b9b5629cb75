-- ===== src/Admin/Cleanup/Retention.antt =====
-- What `cleanup` deletes and what it keeps, in one call and in a series of calls.
use x_bray.Base.{
  ℕ, zero, suc, length, ◌+◌, ◌*◌, ◌≤◌, String, Bool, true, false, Option, none, some, ◌&&◌, leb,
  List, ◌≡◌, arith, count_where, select_where,
}
use x_bray.Admin.Tables.{FlowRow, SessionRow, EventRow, AuthDb, returned, committed}
use x_bray.Admin.Flows.{second, is_open_flow, consume_flow}
use x_bray.Admin.Sessions.{is_valid, get_session}
use x_bray.Admin.Cleanup.{
  delete_limit, deleted_limit, is_dead_flow, is_dead_session, is_dead_event, Deleted, cleanup,
}
use x_bray.Admin.Cleanup.Deletion.{
  find_where-delete_limit, count_where-deleted, select_where-delete_limit, length-delete_limit,
}

-- The rows that the retention periods keep: a flow until a day after its end, a session until thirty
-- days after its end and after its revocation, an event for a hundred and eighty days.
abbrev pub day : ℕ
day = 86_400 * second

abbrev pub is_kept_flow : ℕ → FlowRow → Bool
is_kept_flow now row = leb now (row.expires_at + day)

abbrev pub is_recently_revoked : ℕ → Option ℕ → Bool
is_recently_revoked now none = true
is_recently_revoked now (some revoked_at) = leb now (revoked_at + 30 * day)

abbrev pub is_kept_session : ℕ → SessionRow → Bool
is_kept_session now row =
    leb now (row.absolute_expires_at + 30 * day) && is_recently_revoked now row.revoked_at

abbrev pub is_kept_event : ℕ → EventRow → Bool
is_kept_event now row = leb now (row.created_at + 180 * day)

-- A table before and after a deletion: at most `limit` rows are gone, as many as `deleted` says, and the
-- rows to be kept are all there, in their order.
abbrev pub IsThinned : {A : Type 0} → (A → Bool) → ℕ → ℕ → List A → List A → Type 0
IsThinned keeps limit deleted rows rows' =
    (length rows' + deleted ≡ length rows)
    × (deleted ≤ limit)
    × (select_where keeps rows' ≡ select_where keeps rows)

thinned :
    {A : Type 0}
    → (dead keeps : A → Bool) (limit : ℕ) (rows : List A)
    → ((row : A) → keeps row ≡ true → dead row ≡ false)
    → IsThinned keeps limit (deleted_limit dead limit rows) rows (delete_limit dead limit rows)
thinned dead keeps limit rows h = (
  length-delete_limit dead limit rows,
  ground arith,
  select_where-delete_limit dead keeps limit rows h,
)

-- `cleanup` with a batch size from 1 to 1000 removes at most that many rows of each table, as many as it
-- reports, and none of those that the retention periods keep: a flow until a day after its end, a
-- session until thirty days after its end and after its revocation, an event for a hundred and eighty
-- days. At its instant every token finds the session it found before, and every flow can be consumed
-- that could be.
pub cleanup-keeps_live :
    (batch_size now : ℕ) (db db' : AuthDb) (deleted : Deleted)
    (token_hash state handle binding : String)
    → cleanup batch_size now db ≡ returned (deleted, db')
    → IsThinned (is_kept_flow now) batch_size deleted.admin_oauth_flows db.flows db'.flows
      × IsThinned (is_kept_session now) batch_size deleted.admin_sessions db.sessions db'.sessions
      × IsThinned (is_kept_event now) batch_size deleted.admin_auth_events db.events db'.events
      × (get_session token_hash now db' ≡ get_session token_hash now db)
      × ((consume_flow state handle binding now db').0
          ≡ (consume_flow state handle binding now db).0)
unfolding cleanup get_session consume_flow
cleanup-keeps_live batch_size now db db' deleted token_hash state handle binding h = ground (
  arith,
  thinned (is_dead_flow now) (is_kept_flow now) batch_size db.flows (λ row kept. ground arith),
  thinned (is_dead_session now) (is_kept_session now) batch_size db.sessions
      (λ row kept. ground arith),
  thinned (is_dead_event now) (is_kept_event now) batch_size db.events (λ row kept. ground arith),
  find_where-delete_limit (is_valid token_hash now) (is_dead_session now) batch_size db.sessions
      (λ row valid. ground arith),
  find_where-delete_limit (is_open_flow state handle binding now) (is_dead_flow now) batch_size
      db.flows (λ row is_open. ground arith),
)

-- `rounds` calls at the same instant.
unfoldable pub repeated : ℕ → ℕ → ℕ → AuthDb → AuthDb
unfolding cleanup
repeated zero batch_size now db = db
repeated (suc rounds) batch_size now db =
    repeated rounds batch_size now (committed db (cleanup batch_size now db))

-- The dead rows of the three tables at an instant.
pub record DeadRows : Type 0 where
  pub flows : ℕ
  pub sessions : ℕ
  pub events : ℕ

unfoldable pub dead_rows : ℕ → AuthDb → DeadRows
dead_rows now db = record {
  flows = count_where (is_dead_flow now) db.flows;
  sessions = count_where (is_dead_session now) db.sessions;
  events = count_where (is_dead_event now) db.events;
}

drained_part :
    {A : Type 0} (p : A → Bool) (batch_size bound : ℕ) (rows : List A)
    → count_where p rows ≤ batch_size + bound
    → count_where p (delete_limit p batch_size rows) ≤ bound
drained_part p batch_size bound rows h = ground (arith, count_where-deleted p batch_size rows)

drained_step :
    (batch_size bound now : ℕ) (db : AuthDb)
    → 1 ≤ batch_size
    → batch_size ≤ 1000
    → (dead_rows now db).flows ≤ batch_size + bound
    → (dead_rows now db).sessions ≤ batch_size + bound
    → (dead_rows now db).events ≤ batch_size + bound
    → let next = committed db (cleanup batch_size now db) in
      ((dead_rows now next).flows ≤ bound)
      × ((dead_rows now next).sessions ≤ bound)
      × ((dead_rows now next).events ≤ bound)
unfolding cleanup dead_rows
drained_step batch_size bound now db low high f s e = ground (
  arith,
  drained_part (is_dead_flow now) batch_size bound db.flows f,
  drained_part (is_dead_session now) batch_size bound db.sessions s,
  drained_part (is_dead_event now) batch_size bound db.events e,
)

-- Enough calls of `cleanup` with a batch size from 1 to 1000 leave no dead row: `rounds` calls are
-- enough for every table that has at most `rounds * batch_size` of them.
pub cleanup-drains :
    (rounds batch_size now : ℕ) (db : AuthDb)
    → 1 ≤ batch_size
    → batch_size ≤ 1000
    → (dead_rows now db).flows ≤ rounds * batch_size
    → (dead_rows now db).sessions ≤ rounds * batch_size
    → (dead_rows now db).events ≤ rounds * batch_size
    → dead_rows now (repeated rounds batch_size now db)
      ≡ record { flows = 0; sessions = 0; events = 0 }
unfolding repeated
cleanup-drains zero batch_size now db low high f s e = ground arith
cleanup-drains (suc rounds) batch_size now db low high f s e =
    let next =
      drained_step batch_size (rounds * batch_size) now db low high (omega (arith, f))
        (omega (arith, s)) (omega (arith, e)) in
    cleanup-drains rounds batch_size now (committed db (cleanup batch_size now db)) low high next.0
      next.1 next.2
