-- ===== src/Admin/Routes/Login.antt =====
-- The handler `login` of backend/admin_auth.py.
use x_bray.Base.{
  ℕ, ◌+◌, ◌*◌, String, Bool, true, false, Option, none, some, ◌==◌, ◌||◌, not, if◌then◌else◌,
}
use x_bray.Admin.Tables.{Bytes, AuthDb, Outcome, raised, returned}
use x_bray.Admin.Flows.{NewFlow, create_flow, second}
use x_bray.Admin.Cookies.{flow_cookie, cookie_parts}
use x_bray.Admin.Routes.Callback.{Provider, callback_of}
use x_bray.Admin.Routes.{
  AuthConfig, Crypto, usable_config, flow_cookie_name, Request, sets, Response, redirect,
  auth_error,
}

-- The values that a login draws at random.
pub record LoginSecrets : Type 0 where
  pub binding : String
  pub flow_id : String
  pub handle : String
  pub state : String
  pub nonce : Bytes

abbrev pub binding_of : LoginSecrets → Option (String × String) → String
binding_of secrets none = secrets.binding
binding_of secrets (some (handle, binding)) = binding

-- `FLOW_TTL`
abbrev pub flow_ttl : ℕ
flow_ttl = 600 * second

-- AES-GCM encryption of a verifier, bound to the flow's id and callback.
abbrev pub Encrypt : Type 0
Encrypt = String → String → String → Bytes → Bytes

module _ (encrypt : Encrypt) (crypto : Crypto) (secrets : LoginSecrets) (config : AuthConfig)
    (down : Bool) (now : ℕ) where
  abbrev pub new_flow : String → String → NewFlow
  new_flow binding text = record {
    flow_id = secrets.flow_id;
    handle_hash = crypto.digest secrets.handle;
    state_hash = crypto.digest secrets.state;
    binding_hash = crypto.digest binding;
    ciphertext = encrypt text secrets.flow_id (callback_of config secrets.state) secrets.nonce;
    nonce = secrets.nonce;
    key_version = config.flow_key_version;
    callback_url = callback_of config secrets.state;
    expires_at = now + flow_ttl;
  }

  abbrev pub login_created : String → String → AuthDb → Outcome (Bool × AuthDb) → Response × AuthDb
  login_created binding url db (raised failure) = (auth_error 503 "auth_unavailable", db)
  login_created binding url db (returned (false, db')) = (auth_error 429 "login_rate_limited", db')
  login_created binding url db (returned (true, db')) = (
    record {
      status = 302;
      body = redirect url;
      cookie =
          sets (flow_cookie_name config) (flow_cookie secrets.handle binding) 86_400
            (not config.dev_http_cookie);
    },
    db',
  )

  abbrev pub login_signed_in : String → Option (String × Option String) → AuthDb → Response × AuthDb
  login_signed_in binding none db = (auth_error 503 "auth_unavailable", db)
  login_signed_in binding (some (url, none)) db = (auth_error 503 "auth_unavailable", db)
  login_signed_in binding (some (url, some text)) db =
      if text == "" || down
      then (auth_error 503 "auth_unavailable", db)
      else login_created binding url db (create_flow (new_flow binding text) 5 now db)

abbrev pub config_login :
    Encrypt
    → Crypto
    → LoginSecrets
    → Provider
    → Bool
    → ℕ
    → Request
    → Option AuthConfig
    → AuthDb
    → Response × AuthDb
config_login encrypt crypto secrets provider down now request none db =
    (auth_error 503 "auth_unavailable", db)
config_login encrypt crypto secrets provider down now request (some config) db =
    login_signed_in encrypt crypto secrets config down now
      (binding_of secrets (cookie_parts (request.cookies (flow_cookie_name config))))
      (provider.sign_in (callback_of config secrets.state)) db

unfoldable pub login :
    Encrypt
    → Crypto
    → LoginSecrets
    → Provider
    → Bool
    → ℕ
    → Request
    → Option AuthConfig
    → AuthDb
    → Response × AuthDb
unfolding create_flow cookie_parts flow_cookie
login encrypt crypto secrets provider down now request loaded db =
    config_login encrypt crypto secrets provider down now request (usable_config loaded) db
