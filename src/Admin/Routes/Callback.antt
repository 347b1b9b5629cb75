-- ===== src/Admin/Routes/Callback.antt =====
-- The handler `callback` of backend/admin_auth.py. The identity provider's client is a parameter, as
-- are the random values, and the answer of `_canonical_request`, which parses URLs.
use Prim.Native.String
use Prim.Native.String.{count}
use x_bray.Base.{
  ℕ, ◌+◌, ◌*◌, String, Bool, Option, none, some, List, [], ◌∷◌, ◌==◌, ◌||◌, not, ltb, select_where,
  any_where, map, if◌then◌else◌,
}
use x_bray.Admin.Tables.{FlowRow, AuthDb, Failure, Outcome, raised, returned, database, value_error}
use x_bray.Admin.Flows.{consume_flow, second}
use x_bray.Admin.Sessions.{EventSource, NewSession, record_event, establish_session}
use x_bray.Admin.Members.{is_admin}
use x_bray.Admin.Cookies.{is_opaque, cookie_parts}
use x_bray.Admin.Routes.{
  AuthConfig, Crypto, usable_config, session_cookie_name, flow_cookie_name, Request, sets, keeps,
  Response, redirect, auth_error, clear_cookie, is_text,
}

-- What the exchange of a code and the look-up of its user come to.
pub data Identity : Type 0 where
  sdk_error : Identity
  no_session : Identity
  no_user : Identity
  user : String → Option String → Identity

-- The client of the identity provider: the start of a login, with the redirect and the verifier that
-- it stored, and the exchange of a code, a verifier and a callback.
pub record Provider : Type 0 where
  pub sign_in : String → Option (String × Option String)
  pub exchange : String → String → String → Identity

abbrev pub callback_of : AuthConfig → String → String
callback_of config state = String.◌++◌ config.callback_url (String.◌++◌ "?flow_state=" state)

abbrev pub allowed_key : String → Bool
allowed_key key =
    key == "flow_state"
    || key == "code"
    || key == "error"
    || key == "error_description"
    || key == "error_code"

abbrev pub error_key : String → Bool
error_key key = key == "error" || key == "error_description" || key == "error_code"

abbrev pub has_key : String → String × String → Bool
has_key key (name, value) = name == key

abbrev pub is_refused_key : String × String → Bool
is_refused_key (name, value) = not (allowed_key name) || error_key name

abbrev pub query_value : String × String → String
query_value (name, value) = value

-- `query.getlist(key)`
abbrev pub getlist : String → List (String × String) → List String
getlist key query = map query_value (select_where (has_key key) query)

abbrev pub single_parameters : List String → List String → Option (String × String)
single_parameters (state ∷ []) (code ∷ []) =
    if not (is_opaque state) || code == "" || ltb 4096 (count code)
    then none
    else some (state, code)
single_parameters states codes = none

unfoldable pub callback_parameters : Request → Option (String × String)
callback_parameters request =
    if any_where is_refused_key request.query
    then none
    else single_parameters (getlist "flow_state" request.query) (getlist "code" request.query)

-- The statements of a callback: whether each finds the database down, and its instant.
pub record CallbackSurroundings : Type 0 where
  pub consume_down : Bool
  pub consume_at : ℕ
  pub member_down : Bool
  pub event_down : Bool
  pub event_at : ℕ
  pub establish_down : Bool
  pub establish_at : ℕ

abbrev pub safe_redirect : AuthConfig → String → Response
safe_redirect config reason = clear_cookie (flow_cookie_name config) config (record {
  status = 303;
  body = redirect (String.◌++◌ config.app_origin (String.◌++◌ "/login?reason=" reason));
  cookie = keeps;
})

-- psycopg.Error and sqlite3.Error, and any other exception.
abbrev pub failure_response : AuthConfig → Failure → Response
failure_response config database = auth_error 503 "auth_unavailable"
failure_response config (value_error text) = safe_redirect config "login_failed"

-- The verifier of a consumed flow: none, and `other_error` where the decryption raises.
pub data Verifier : Type 0 where
  refused : Verifier
  undecryptable : Verifier
  verifier : String → Verifier

abbrev pub decrypted : Option String → Verifier
decrypted none = undecryptable
decrypted (some text) = verifier text

abbrev pub flow_verifier : Crypto → AuthConfig → String → Option FlowRow → Verifier
flow_verifier crypto config state none = refused
flow_verifier crypto config state (some flow) =
    if not (flow.callback_url == callback_of config state)
    then refused
    else if not (flow.key_version == config.flow_key_version)
    then refused
    else decrypted (crypto.decrypt flow)

-- The values that a callback draws at random: the session's cookie and its id.
pub record SessionSecrets : Type 0 where
  pub raw : String
  pub session_id : String

abbrev pub opaque_hash : Crypto → Option String → Option String
opaque_hash crypto none = none
opaque_hash crypto (some previous) =
    if is_opaque previous then some (crypto.session_hash previous) else none

abbrev pub earlier_of : ℕ → ℕ → ℕ
earlier_of a b = if ltb b a then b else a

-- The arguments of `establish_session`.
abbrev pub new_session : Crypto → AuthConfig → SessionSecrets → String → ℕ → NewSession
new_session crypto config secrets user_id now =
    let absolute : ℕ = now + config.absolute_seconds * second in
    record {
      session_id = secrets.session_id;
      token_hash = crypto.session_hash secrets.raw;
      user_id = user_id;
      csrf_hash = crypto.digest (crypto.csrf secrets.raw);
      idle_expires_at = earlier_of (now + config.idle_seconds * second) absolute;
      absolute_expires_at = absolute;
    }

-- The steps of a callback, the last first; each gives the answer and the database after it.
module _ (around : CallbackSurroundings) (crypto : Crypto) (source : EventSource)
    (secrets : SessionSecrets) (request : Request) (config : AuthConfig) where
  abbrev pub event_written : Response → AuthDb → Outcome (Unit {0} × AuthDb) → Response × AuthDb
  event_written response db (raised failure) = (failure_response config failure, db)
  event_written response db (returned (value, db')) = (response, db')

  abbrev pub denied_login : String → String → Response → AuthDb → Response × AuthDb
  denied_login user_id reason response db =
      if around.event_down
      then (auth_error 503 "auth_unavailable", db)
      else event_written response db
          (record_event source (some user_id) "login_denied" reason around.event_at db)

  abbrev pub login_success : Response
  login_success = record {
    status = 303;
    body = redirect (String.◌++◌ config.app_origin "/admin");
    cookie =
        sets (session_cookie_name config) secrets.raw config.absolute_seconds
          (not config.dev_http_cookie);
  }

  abbrev pub established : String → AuthDb → Response × AuthDb
  established user_id db =
      if around.establish_down
      then (auth_error 503 "auth_unavailable", db)
      else event_written login_success db (
          establish_session source (new_session crypto config secrets user_id around.establish_at)
            (opaque_hash crypto (request.cookies (session_cookie_name config))) around.establish_at
            db)

  abbrev pub member_login : String → AuthDb → Response × AuthDb
  member_login user_id db =
      if around.member_down
      then (auth_error 503 "auth_unavailable", db)
      else if not (is_admin user_id db)
      then denied_login user_id "membership_required" (safe_redirect config "not_authorized") db
      else established user_id db

  -- `_exchange_google_identity`, and what follows it.
  abbrev pub identity_login : Identity → AuthDb → Response × AuthDb
  identity_login sdk_error db = (safe_redirect config "login_failed", db)
  identity_login no_session db = (safe_redirect config "login_failed", db)
  identity_login no_user db = (safe_redirect config "login_failed", db)
  identity_login (user user_id provider) db =
      if not (is_text provider "google")
      then denied_login user_id "provider_not_allowed" (safe_redirect config "login_failed") db
      else member_login user_id db

  abbrev pub verified_login : Provider → String → String → Verifier → AuthDb → Response × AuthDb
  verified_login provider state code refused db = (safe_redirect config "login_failed", db)
  verified_login provider state code undecryptable db = (safe_redirect config "login_failed", db)
  verified_login provider state code (verifier text) db =
      identity_login (provider.exchange code text (callback_of config state)) db

  abbrev pub consumed_login :
      Provider → String → String → Option FlowRow × AuthDb → Response × AuthDb
  consumed_login provider state code (flow, db) =
      verified_login provider state code (flow_verifier crypto config state flow) db

  abbrev pub flow_login :
      Provider → Option (String × String) → Option (String × String) → AuthDb → Response × AuthDb
  flow_login provider none cookie db = (safe_redirect config "login_failed", db)
  flow_login provider (some parameters) none db = (safe_redirect config "login_failed", db)
  flow_login provider (some (state, code)) (some (handle, binding)) db =
      if around.consume_down
      then (auth_error 503 "auth_unavailable", db)
      else consumed_login provider state code (
          consume_flow (crypto.digest state) (crypto.digest handle) (crypto.digest binding)
            around.consume_at db)

abbrev pub config_callback :
    CallbackSurroundings
    → Crypto
    → EventSource
    → SessionSecrets
    → Provider
    → Bool
    → Request
    → Option AuthConfig
    → AuthDb
    → Response × AuthDb
config_callback around crypto source secrets provider canonical request none db =
    (auth_error 503 "auth_unavailable", db)
config_callback around crypto source secrets provider canonical request (some config) db =
    if not canonical
    then (auth_error 400 "invalid_callback", db)
    else flow_login around crypto source secrets request config provider
        (callback_parameters request) (cookie_parts (request.cookies (flow_cookie_name config))) db

unfoldable pub callback :
    CallbackSurroundings
    → Crypto
    → EventSource
    → SessionSecrets
    → Provider
    → Bool
    → Request
    → Option AuthConfig
    → AuthDb
    → Response × AuthDb
unfolding callback_parameters cookie_parts consume_flow is_admin record_event establish_session
callback around crypto source secrets provider canonical request loaded db =
    config_callback around crypto source secrets provider canonical request (usable_config loaded)
      db
