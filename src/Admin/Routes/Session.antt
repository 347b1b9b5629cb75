-- ===== src/Admin/Routes/Session.antt =====
-- The handlers `session`, `logout` and `activity` of backend/admin_auth.py.
use x_bray.Base.{ℕ, String, Bool, true, false, Option, some, is_none, if◌then◌else◌}
use x_bray.Admin.Tables.{AuthDb, Outcome, raised, returned}
use x_bray.Admin.Sessions.{EventSource, get_session, revoke_session, record_event, update_activity}
use x_bray.Admin.Routes.{
  AuthConfig, Crypto, Request, Response, done, session_dto, keeps, auth_error, clear_session,
  Material, Surroundings, Access, unavailable, denied, admitted, require_admin, forged_answer,
  unless_forged,
}

-- The `except` branches that the two POST handlers share.
abbrev pub refusal : AuthConfig → ℕ → String → Response
refusal config status code = clear_session config (auth_error status code)

abbrev pub member_dto : Material → Response
member_dto material = record {
  status = 200;
  body = session_dto (record {
    user_id = material.found.session.user_id;
    idle_expires_at = material.found.session.idle_expires_at;
    absolute_expires_at = material.found.session.absolute_expires_at;
    csrf_token = material.csrf;
  });
  cookie = keeps;
}

abbrev pub session_answer : Access × AuthDb → Response × AuthDb
session_answer (unavailable, db) = (auth_error 503 "auth_unavailable", db)
session_answer (denied config status code, db) = (refusal config status code, db)
session_answer (admitted config material, db) = (member_dto material, db)

-- `session` has the branches of `_require_admin`, written out.
unfoldable pub session :
    Surroundings → Crypto → Option AuthConfig → Request → AuthDb → Response × AuthDb
unfolding require_admin
session around crypto loaded request db =
    session_answer (require_admin around crypto loaded request db)

abbrev pub ok_response : Response
ok_response = record { status = 200; body = done; cookie = keeps }

abbrev pub logged_out : AuthConfig → AuthDb → Outcome (Unit {0} × AuthDb) → Response × AuthDb
logged_out config db (raised failure) = (auth_error 503 "auth_unavailable", db)
logged_out config db (returned (value, db')) = (clear_session config ok_response, db')

-- The revocation is committed before the event is written.
abbrev pub logout_revoked :
    Surroundings → EventSource → AuthConfig → Material → AuthDb → Response × AuthDb
logout_revoked around source config material db =
    if around.last_down
    then (auth_error 503 "auth_unavailable", db)
    else logged_out config db (
        record_event source (some material.found.session.user_id) "logout" "user_request"
          around.last_at db)

abbrev pub logout_admitted :
    Surroundings
    → Crypto
    → EventSource
    → Request
    → AuthConfig
    → Material
    → AuthDb
    → Response × AuthDb
logout_admitted around crypto source request config material db =
    unless_forged (forged_answer request config material.csrf) db (
      if around.write_down
      then (auth_error 503 "auth_unavailable", db)
      else logout_revoked around source config material
          (revoke_session (crypto.session_hash material.raw) around.write_at db).1)

abbrev pub logout_access :
    Surroundings → Crypto → EventSource → Request → Access × AuthDb → Response × AuthDb
logout_access around crypto source request (unavailable, db) =
    (auth_error 503 "auth_unavailable", db)
logout_access around crypto source request (denied config status code, db) =
    (refusal config status code, db)
logout_access around crypto source request (admitted config material, db) =
    logout_admitted around crypto source request config material db

unfoldable pub logout :
    Surroundings → Crypto → EventSource → Option AuthConfig → Request → AuthDb → Response × AuthDb
unfolding require_admin revoke_session record_event
logout around crypto source loaded request db =
    logout_access around crypto source request (require_admin around crypto loaded request db)

-- Not updated: either inside the minute of the last update, or expired or revoked in between.
abbrev pub not_updated : Surroundings → Crypto → AuthConfig → Material → AuthDb → Response
not_updated around crypto config material db =
    if around.last_down
    then auth_error 503 "auth_unavailable"
    else if is_none (get_session (crypto.session_hash material.raw) around.last_at db)
    then refusal config 401 "session_invalid"
    else ok_response

abbrev pub activity_updated :
    Surroundings → Crypto → AuthConfig → Material → Bool × AuthDb → Response × AuthDb
activity_updated around crypto config material (true, db) = (ok_response, db)
activity_updated around crypto config material (false, db) =
    (not_updated around crypto config material db, db)

abbrev pub activity_admitted :
    Surroundings → Crypto → Request → AuthConfig → Material → AuthDb → Response × AuthDb
activity_admitted around crypto request config material db =
    unless_forged (forged_answer request config material.csrf) db (
      if around.write_down
      then (auth_error 503 "auth_unavailable", db)
      else activity_updated around crypto config material (
          update_activity around.activity_clock (crypto.session_hash material.raw)
            config.idle_seconds around.write_at db))

abbrev pub activity_access : Surroundings → Crypto → Request → Access × AuthDb → Response × AuthDb
activity_access around crypto request (unavailable, db) = (auth_error 503 "auth_unavailable", db)
activity_access around crypto request (denied config status code, db) =
    (refusal config status code, db)
activity_access around crypto request (admitted config material, db) =
    activity_admitted around crypto request config material db

unfoldable pub activity :
    Surroundings → Crypto → Option AuthConfig → Request → AuthDb → Response × AuthDb
unfolding require_admin update_activity get_session
activity around crypto loaded request db =
    activity_access around crypto request (require_admin around crypto loaded request db)
