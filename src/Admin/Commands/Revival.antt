-- ===== src/Admin/Commands/Revival.antt =====
-- Sessions that are not valid any more: revoked, idle for too long, or past their absolute end.
use x_bray.Base.{
  ℕ, ◌+◌, String, Bool, true, ◌==◌, ◌&&◌, leb, false, Option, none, some, List, [], ◌∷◌, ◌≡◌, refl,
  arith, any_where, find_where-none, any_where-none, any_where_mono,
}
use x_bray.Admin.Tables.{AuthDb, SessionRow, MembershipRow}
use x_bray.Admin.Sessions.{
  ActivityClock, exact, of_sqlite, millisecond, is_stale, touched, is_unrevoked, is_valid,
  get_session, join_member,
}
use x_bray.Admin.Commands.SessionRows.{inserts, updates_by, step_sessions}
use x_bray.Admin.Commands.{
  AuthCommand, creates_flow, consumes_flow, creates_session, establishes_session, revokes_session,
  updates_activity, grants_admin, revokes_admin, records_event, cleans_up, step, run, issues_token,
  never,
}

module _ (token_hash : String) where
  inserts-issues_token :
      (start now : ℕ) (command : AuthCommand)
      → issues_token token_hash command ≡ false
      → inserts (is_valid token_hash start) now command ≡ false
  inserts-issues_token start now (creates_session new) h = ground arith
  inserts-issues_token start now (establishes_session source new previous) h = ground arith
  inserts-issues_token start now (creates_flow flow limit) h = refl
  inserts-issues_token start now (consumes_flow state handle binding) h = refl
  inserts-issues_token start now (revokes_session other) h = refl
  inserts-issues_token start now (updates_activity clock other idle) h = refl
  inserts-issues_token start now (grants_admin source user granted reason) h = refl
  inserts-issues_token start now (revokes_admin source user granted reason) h = refl
  inserts-issues_token start now (records_event source user event reason) h = refl
  inserts-issues_token start now (cleans_up batch_size) h = refl

  -- An update by SQLite's clock, which reads milliseconds, comes a millisecond or more after `start`.
  abbrev pub reads_after : ℕ → ℕ → ActivityClock → Bool
  reads_after start now exact = leb start now
  reads_after start now (of_sqlite rounds borderline) = leb (start + millisecond) now

  not_stale :
      (start now : ℕ) (clock : ActivityClock) (other : String) (row : SessionRow)
      → reads_after start now clock ≡ true
      → is_valid token_hash start row ≡ false
      → is_stale clock other now row ≡ true
      → (row.session_token_hash == token_hash) ≡ false
  not_stale start now exact other row after dead stale = ground arith
  not_stale start now (of_sqlite true borderline) other row after dead stale = ground arith
  not_stale start now (of_sqlite false borderline) other row after dead stale = ground arith

  touched-is_valid :
      (start now : ℕ) (clock : ActivityClock) (other : String) (idle_seconds : ℕ) (row : SessionRow)
      → reads_after start now clock ≡ true
      → is_valid token_hash start row ≡ false
      → is_stale clock other now row ≡ true
      → is_valid token_hash start (touched clock idle_seconds now row) ≡ false
  touched-is_valid start now exact other idle row after dead stale =
      ground (arith, not_stale start now exact other row after dead stale)
  touched-is_valid start now (of_sqlite rounds borderline) other idle row after dead stale =
      ground (arith, not_stale start now (of_sqlite rounds borderline) other row after dead stale)

  step-is_valid :
      (start now : ℕ) (command : AuthCommand) (db : AuthDb)
      → updates_by (reads_after start now) command ≡ true
      → issues_token token_hash command ≡ false
      → any_where (is_valid token_hash start) db.sessions ≡ false
      → any_where (is_valid token_hash start) (step now command db).sessions ≡ false
  step-is_valid start now command db after unissued h =
      step_sessions (is_valid token_hash start) (is_valid token_hash start) now (λ row dead. dead)
        (λ row dead. ground arith) (reads_after start now)
        (λ clock other idle row k dead stale.
          touched-is_valid start now clock other idle row k dead stale)
        command db (inserts-issues_token start now command unissued) after h

  -- `end` is not before `start`, and neither is an update of an activity, which by SQLite's clock comes
  -- a millisecond or more after it.
  unfoldable pub reads_later : ℕ → List (ℕ × AuthCommand) → ℕ → Bool
  reads_later start [] end = leb start end
  reads_later start ((now, command) ∷ rest) end =
      updates_by (reads_after start now) command && reads_later start rest end

  run-is_valid :
      (history : List (ℕ × AuthCommand)) (start end : ℕ) (db : AuthDb)
      → reads_later start history end ≡ true
      → never (issues_token token_hash) history ≡ true
      → any_where (is_valid token_hash start) db.sessions ≡ false
      → any_where (is_valid token_hash end) (run history db).sessions ≡ false
  unfolding run reads_later never any_where
  run-is_valid [] start end db o n h =
      any_where_mono (is_valid token_hash end) (is_valid token_hash start) db.sessions
        (λ row valid. ground arith) h
  run-is_valid ((now, command) ∷ rest) start end db o n h =
      run-is_valid rest start end (step now command db) (ground arith) (ground arith)
        (step-is_valid start now command db (ground arith) (ground arith) h)

  unrevoked-insert :
      (now : ℕ) (command : AuthCommand)
      → issues_token token_hash command ≡ false
      → inserts (is_unrevoked token_hash) now command ≡ false
  unrevoked-insert now (creates_session new) h = ground arith
  unrevoked-insert now (establishes_session source new previous) h = ground arith
  unrevoked-insert now (creates_flow flow limit) h = refl
  unrevoked-insert now (consumes_flow state handle binding) h = refl
  unrevoked-insert now (revokes_session other) h = refl
  unrevoked-insert now (updates_activity clock other idle) h = refl
  unrevoked-insert now (grants_admin source user granted reason) h = refl
  unrevoked-insert now (revokes_admin source user granted reason) h = refl
  unrevoked-insert now (records_event source user event reason) h = refl
  unrevoked-insert now (cleans_up batch_size) h = refl

  touched-is_unrevoked :
      (clock : ActivityClock) (idle_seconds now : ℕ) (row : SessionRow)
      → is_unrevoked token_hash row ≡ false
      → is_unrevoked token_hash (touched clock idle_seconds now row) ≡ false
  touched-is_unrevoked exact idle now row h = h
  touched-is_unrevoked (of_sqlite rounds borderline) idle now row h = h

  any_clock : (command : AuthCommand) → updates_by (λ clock. true) command ≡ true
  any_clock command = ground arith

  -- Once every session with the token is revoked, that stays so.
  pub run-is_unrevoked :
      (history : List (ℕ × AuthCommand)) (db : AuthDb)
      → never (issues_token token_hash) history ≡ true
      → any_where (is_unrevoked token_hash) db.sessions ≡ false
      → any_where (is_unrevoked token_hash) (run history db).sessions ≡ false
  unfolding run never
  run-is_unrevoked [] db n h = h
  run-is_unrevoked ((now, command) ∷ rest) db n h =
      run-is_unrevoked rest (step now command db) (ground arith) (
        step_sessions (is_unrevoked token_hash) (is_unrevoked token_hash) now (λ row k. k)
          (λ row k. ground arith) (λ clock. true)
          (λ clock other idle row t k stale. touched-is_unrevoked clock idle now row k) command db
          (unrevoked-insert now command (ground arith)) (any_clock command) h)

  pub none_of_invalid :
      (now : ℕ) (db : AuthDb)
      → any_where (is_valid token_hash now) db.sessions ≡ false
      → get_session token_hash now db ≡ none
  unfolding get_session
  none_of_invalid now db h = rw (find_where-none (is_valid token_hash now) db.sessions h) refl

  invalid_of_join :
      (memberships : List MembershipRow) (found : Option SessionRow)
      → join_member memberships found ≡ none
      → found ≡ none
  invalid_of_join memberships none h = refl
  invalid_of_join memberships (some row) h = ground arith

  invalid_of_none :
      (now : ℕ) (db : AuthDb)
      → get_session token_hash now db ≡ none
      → any_where (is_valid token_hash now) db.sessions ≡ false
  unfolding get_session
  invalid_of_none now db h =
      any_where-none (is_valid token_hash now) db.sessions (invalid_of_join db.memberships _ h)

  -- A token that finds no session at an instant `start` finds none at any later one, whatever calls
  -- come between, as long as none of them inserts a session with the same token hash and no update of
  -- an activity comes before `start` or, by SQLite's clock of milliseconds, less than a millisecond
  -- after it: no revoked, idle or expired session comes back.
  pub invalid_stays_invalid :
      (history : List (ℕ × AuthCommand)) (start end : ℕ) (db : AuthDb)
      → reads_later start history end ≡ true
      → never (issues_token token_hash) history ≡ true
      → get_session token_hash start db ≡ none
      → get_session token_hash end (run history db) ≡ none
  invalid_stays_invalid history start end db o n h =
      none_of_invalid end (run history db)
        (run-is_valid history start end db o n (invalid_of_none start db h))
