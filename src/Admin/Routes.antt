-- ===== src/Admin/Routes.antt =====
-- The guards of backend/admin_auth.py: configuration, session cookie, CSRF token, origin and
-- membership, and the answers. Cryptography and the identity provider are parameters.
pub mod Session
pub mod Callback
pub mod Login
pub mod Guards
pub mod Logout
pub mod LoginSteps
pub mod LoginGrounds
pub mod Replay
use x_bray.Base.{
  ℕ, String, Bool, true, false, Option, none, some, List, ◌==◌, ◌&&◌, ◌||◌, not, if◌then◌else◌,
}
use x_bray.Admin.Tables.{Bytes, FlowRow, AuthDb, Outcome, raised, returned, database, ◌>>=◌}
use x_bray.Base.Texts.{is_ascii}
use x_bray.Admin.Sessions.{ActivityClock, SessionRecord, get_session, revoke_session}
use x_bray.Admin.Cookies.{is_opaque}

-- The fields of AuthConfig (backend/admin_auth_config.py) that the routes read; the keys are in
-- `Crypto`.
pub record AuthConfig : Type 0 where
  pub enabled : Bool
  pub app_origin : String
  pub callback_url : String
  pub flow_key_version : String
  pub idle_seconds : ℕ
  pub absolute_seconds : ℕ
  pub dev_http_cookie : Bool

-- HMAC-SHA-256, SHA-256 and AES-GCM under the configured keys. `decrypt` is none where it raises.
pub record Crypto : Type 0 where
  pub session_hash : String → String
  pub csrf : String → String
  pub digest : String → String
  pub decrypt : FlowRow → Option String

-- What `load_auth_config` gives: none when it raises AuthConfigurationError.
abbrev pub usable_config : Option AuthConfig → Option AuthConfig
usable_config none = none
usable_config (some config) = if config.enabled then some config else none

abbrev pub session_cookie_name : AuthConfig → String
session_cookie_name config =
    if config.dev_http_cookie then "xbray_admin_dev" else "__Host-xbray_admin"

abbrev pub flow_cookie_name : AuthConfig → String
flow_cookie_name config =
    if config.dev_http_cookie then "xbray_oauth_flow_dev" else "__Host-xbray_oauth_flow"

pub record Request : Type 0 where
  pub cookies : String → Option String
  pub origin : Option String
  pub csrf_token : Option String
  pub query : List (String × String)

pub data CookieChange : Type 0 where
  keeps : CookieChange
  sets : String → String → ℕ → Bool → CookieChange
  clears : String → Bool → CookieChange

-- `_session_dto`; its permissions are constant.
pub record SessionDto : Type 0 where
  pub user_id : String
  pub idle_expires_at : ℕ
  pub absolute_expires_at : ℕ
  pub csrf_token : String

pub data Body : Type 0 where
  error : String → Body
  done : Body
  session_dto : SessionDto → Body
  redirect : String → Body

pub record Response : Type 0 where
  pub status : ℕ
  pub body : Body
  pub cookie : CookieChange

abbrev pub auth_error : ℕ → String → Response
auth_error status code = record { status = status; body = error code; cookie = keeps }

abbrev pub clear_cookie : String → AuthConfig → Response → Response
clear_cookie name config response = record response {
  cookie = clears name (not config.dev_http_cookie);
}

abbrev pub clear_session : AuthConfig → Response → Response
clear_session config response = clear_cookie (session_cookie_name config) config response

-- A statement that raises psycopg.Error or sqlite3.Error when the database is down.
abbrev pub ask {ℓ} : {A : Type ℓ} → Bool → A → Outcome A
ask true value = raised database
ask false value = returned value

pub record Material : Type 0 where
  pub raw : String
  pub csrf : String
  pub found : SessionRecord

abbrev pub matching_csrf : Crypto → String → Option SessionRecord → Option Material
matching_csrf crypto raw none = none
matching_csrf crypto raw (some found) =
    if not (crypto.digest (crypto.csrf raw) == found.session.csrf_token_hash)
    then none
    else some (record { raw = raw; csrf = crypto.csrf raw; found = found })

abbrev pub material_of : Bool → Crypto → Option String → ℕ → AuthDb → Outcome (Option Material)
material_of down crypto none now db = returned none
material_of down crypto (some raw) now db =
    if not (is_opaque raw)
    then returned none
    else ask down (get_session (crypto.session_hash raw) now db) >>= λ found.
        returned (matching_csrf crypto raw found)

unfoldable pub session_material :
    Bool → Crypto → Request → AuthConfig → ℕ → AuthDb → Outcome (Option Material)
session_material down crypto request config now db =
    material_of down crypto (request.cookies (session_cookie_name config)) now db

-- Which of a request's statements find the database down, and the instant of each.
pub record Surroundings : Type 0 where
  pub read_down : Bool
  pub read_at : ℕ
  pub write_down : Bool
  pub write_at : ℕ
  pub last_down : Bool
  pub last_at : ℕ
  pub activity_clock : ActivityClock

-- What `_require_admin` comes to.
pub data Access : Type 0 where
  unavailable : Access
  denied : AuthConfig → ℕ → String → Access
  admitted : AuthConfig → Material → Access

abbrev pub revoke_stranger :
    Surroundings → Crypto → AuthConfig → Material → AuthDb → Access × AuthDb
revoke_stranger around crypto config material db =
    if around.write_down then (unavailable, db) else (
      denied config 403 "not_authorized",
      (revoke_session (crypto.session_hash material.raw) around.write_at db).1,
    )

abbrev pub member_access :
    Surroundings → Crypto → AuthConfig → Material → Option String → AuthDb → Access × AuthDb
member_access around crypto config material none db =
    revoke_stranger around crypto config material db
member_access around crypto config material (some member) db = (admitted config material, db)

abbrev pub material_access :
    Surroundings → Crypto → AuthConfig → Outcome (Option Material) → AuthDb → Access × AuthDb
material_access around crypto config (raised failure) db = (unavailable, db)
material_access around crypto config (returned none) db = (denied config 401 "session_invalid", db)
material_access around crypto config (returned (some material)) db =
    member_access around crypto config material material.found.active_member db

abbrev pub config_access :
    Surroundings → Crypto → Request → Option AuthConfig → AuthDb → Access × AuthDb
config_access around crypto request none db = (unavailable, db)
config_access around crypto request (some config) db =
    material_access around crypto config
      (session_material around.read_down crypto request config around.read_at db) db

unfoldable pub require_admin :
    Surroundings → Crypto → Option AuthConfig → Request → AuthDb → Access × AuthDb
unfolding session_material get_session revoke_session
require_admin around crypto loaded request db =
    config_access around crypto request (usable_config loaded) db

abbrev pub is_text : Option String → String → Bool
is_text none text = false
is_text (some other) text = other == text

abbrev pub expected_origin : Request → AuthConfig → Bool
expected_origin request config = is_text request.origin config.app_origin

-- `hmac.compare_digest` raises TypeError, here none, where a text is not ASCII; the token of the
-- session is ASCII.
abbrev pub valid_csrf : Request → String → Option Bool
valid_csrf request csrf = elim request.csrf_token [
  | none ↦ some false
  | some supplied ↦ if is_ascii supplied then some (supplied == csrf) else none
]

-- An exception that no handler catches.
abbrev pub server_error : Response
server_error = auth_error 500 "Internal Server Error"

abbrev pub csrf_answer : Option Bool → Option Response
csrf_answer none = some server_error
csrf_answer (some true) = none
csrf_answer (some false) = some (auth_error 403 "request_forbidden")

-- The answer to a request from elsewhere: the origin is compared before the token.
abbrev pub forged_answer : Request → AuthConfig → String → Option Response
forged_answer request config csrf =
    if not (expected_origin request config)
    then some (auth_error 403 "request_forbidden")
    else csrf_answer (valid_csrf request csrf)

abbrev pub unless_forged : Option Response → AuthDb → Response × AuthDb → Response × AuthDb
unless_forged none db next = next
unless_forged (some response) db next = (response, db)
