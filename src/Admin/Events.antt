-- ===== src/Admin/Events.antt =====
-- The identifiers of audit events.
use x_bray.Base.{
  ℕ, String, Bool, true, false, none, List, [], ◌∷◌, ◌++◌, ◌≡◌, refl, arith, any_where,
  any_where-append, eq_iff,
}
use x_bray.Base.Texts.{truncate}
use x_bray.Admin.Tables.{
  AuthDb, EventRow, Outcome, raised, returned, database, insert_unique, ◌>>=◌,
}
use x_bray.Admin.Sessions.{EventSource, insert_event, record_event, is_event, event_id_of}

abbrev pub nobody : String
nobody = "00000000-0000-0000-0000-000000000000"

any_where-last :
    (rows : List EventRow) (row : EventRow)
    → row.id ≡ nobody
    → any_where (is_event nobody) (rows ++ row ∷ []) ≡ true
unfolding any_where
any_where-last rows row e =
    ground (arith, any_where-append (is_event nobody) rows (row ∷ []), eq_iff row.id nobody)

abbrev recorded : AuthDb → Outcome (Unit {0} × AuthDb)
recorded db = returned (tt, db)

abbrev inserted : Bool → EventRow → AuthDb → Outcome (Unit {0} × AuthDb)
inserted present row db =
    insert_unique present row db.events
    >>= (λ events. returned (record db { events = events }))
    >>= recorded

nobody-recorded :
    (row : EventRow) (db db' : AuthDb) (present : Bool)
    → row.id ≡ nobody
    → inserted present row db ≡ recorded db'
    → any_where (is_event nobody) db'.events ≡ true
nobody-recorded row db db' true e h = ground arith
nobody-recorded row db db' false e h = ground (arith, any_where-last db.events row e)

nobody_id :
    (source : EventSource)
    → source.postgres ≡ true
    → event_id_of source.postgres none source.fresh ≡ nobody
nobody_id source s = rw s refl

-- On PostgreSQL an event without a user takes a fixed id, which is the primary key: once one has been
-- recorded, recording another raises a database error, whatever it says.
pub second_anonymous_event_fails :
    (source again : EventSource) (event event' reason reason' : String) (now now' : ℕ)
    (db db' : AuthDb)
    → source.postgres ≡ true
    → again.postgres ≡ true
    → record_event source none event reason now db ≡ returned (tt, db')
    → record_event again none event' reason' now' db' ≡ raised database
unfolding record_event insert_event
second_anonymous_event_fails source again event event' reason reason' now now' db db' s t h =
    let row : EventRow = record {
      id = event_id_of source.postgres none source.fresh;
      user_id = none;
      event = event;
      created_at = now;
      reason = truncate 200 reason;
    } in
    let present =
      nobody-recorded row db db' (any_where (is_event row.id) db.events) (nobody_id source s) h in
    rw (nobody_id again t) (rw present refl)
