-- ===== src/Admin/Routes/LoginGrounds.antt =====
-- -- What a successful callback rests on, and that it consumed its flow.
use x_bray.Base.{
  String, Bool, true, false, Option, none, some, ◌≡◌, refl, arith, Bool-cases, inl, inr,
}
use x_bray.Admin.Tables.{AuthDb, FlowRow}
use x_bray.Admin.Flows.{consume_flow}
use x_bray.Admin.Sessions.{EventSource}
use x_bray.Admin.Members.{is_admin}
use x_bray.Admin.Cookies.{cookie_parts}
use x_bray.Admin.Routes.Callback.{
  Provider, user, CallbackSurroundings, SessionSecrets, callback_of, callback_parameters,
  flow_verifier, consumed_login, flow_login, config_callback, callback,
}
use x_bray.Admin.Routes.{AuthConfig, Crypto, usable_config, flow_cookie_name, Request, Response}
use x_bray.Admin.Routes.LoginSteps.{
  logs_in, verified_login-success, verified_login-flows, IsFlowOf, flow_verifier-IsFlowOf,
}

module _ (around : CallbackSurroundings) (crypto : Crypto) (source : EventSource)
    (secrets : SessionSecrets) (request : Request) (config : AuthConfig) where
  -- What a successful login rests on, given the state, the code, the handle and the browser binding.
  pub record IsLogin (provider : Provider) (db : AuthDb) (state code handle binding : String)
      : Type 0 where
    pub text : String
    pub flow : FlowRow
    pub user_id : String
    pub consumed :
        (consume_flow
          (crypto.digest state)
          (crypto.digest handle)
          (crypto.digest binding)
          around.consume_at
          db).0
        ≡ some flow
    pub of_flow : IsFlowOf around crypto source secrets request config state text flow
    pub identity :
        provider.exchange code text (callback_of config state) ≡ user user_id (some "google")
    pub member : is_admin user_id db ≡ true

  consumed_login-IsLogin :
      (provider : Provider) (state code handle binding : String) (db : AuthDb)
      → logs_in (
          consumed_login around crypto source secrets request config provider state code (
            consume_flow
              (crypto.digest state)
              (crypto.digest handle)
              (crypto.digest binding)
              around.consume_at
              db))
        ≡ true
      → IsLogin provider db state code handle binding
  unfolding consume_flow is_admin
  consumed_login-IsLogin provider state code handle binding db h =
      let used =
        consume_flow (crypto.digest state) (crypto.digest handle) (crypto.digest binding)
          around.consume_at db in
      let (text, plain, (user_id, exchanged, member)) =
        verified_login-success around crypto source secrets request config provider state code
          (flow_verifier crypto config state used.0) used.1 h in
      let (flow, found, of_flow) =
        flow_verifier-IsFlowOf around crypto source secrets request config state text used.0
          plain in
      record {
        text = text;
        flow = flow;
        user_id = user_id;
        consumed = found;
        of_flow = of_flow;
        identity = exchanged;
        member = member;
      }

  consumed_login-flows :
      (provider : Provider) (state code handle binding : String) (db : AuthDb)
      → let used =
          consume_flow
            (crypto.digest state)
            (crypto.digest handle)
            (crypto.digest binding)
            around.consume_at
            db in
        (consumed_login around crypto source secrets request config provider state code
          used).1.flows
        ≡ used.1.flows
  consumed_login-flows provider state code handle binding db =
      let used =
        consume_flow (crypto.digest state) (crypto.digest handle) (crypto.digest binding)
          around.consume_at db in
      verified_login-flows around crypto source secrets request config provider state code
        (flow_verifier crypto config state used.0) used.1

  pub flow_login-IsLogin :
      (provider : Provider) (parameters cookie : Option (String × String)) (db : AuthDb)
      → logs_in
          (flow_login around crypto source secrets request config provider parameters cookie db)
        ≡ true
      → (state : String) × (code : String) × (handle : String) × (binding : String) × (parameters
          ≡ some (state, code))
        × (cookie ≡ some (handle, binding))
        × IsLogin provider db state code handle binding
        × ((flow_login around crypto source secrets request config provider parameters cookie
              db).1.flows
            ≡ (consume_flow
                (crypto.digest state)
                (crypto.digest handle)
                (crypto.digest binding)
                around.consume_at
                db).1.flows)
  flow_login-IsLogin provider none cookie db h = ground arith
  flow_login-IsLogin provider (some (state, code)) none db h = ground arith
  flow_login-IsLogin provider (some (state, code)) (some (handle, binding)) db h =
      elim (Bool-cases around.consume_down) [
        | inl down ↦ absurd (by_down down h)
        | inr up ↦ (
          state,
          code,
          handle,
          binding,
          refl,
          refl,
          consumed_login-IsLogin provider state code handle binding db (rw up at h),
          rw up (consumed_login-flows provider state code handle binding db),
        )
      ]
    where
      by_down :
          around.consume_down ≡ true
          → logs_in (
              flow_login around crypto source secrets request config provider
                (some (state, code))
                (some (handle, binding))
                db)
            ≡ true
          → ⊥
      by_down down h = ground arith

usable-of_enabled :
    (config : AuthConfig) → config.enabled ≡ true → usable_config (some config) ≡ some config
usable-of_enabled config on = ground arith

usable-of_disabled :
    (config : AuthConfig) → config.enabled ≡ false → usable_config (some config) ≡ none
usable-of_disabled config off = ground arith

module _ (around : CallbackSurroundings) (crypto : Crypto) (source : EventSource)
    (secrets : SessionSecrets) (provider : Provider) (request : Request) (config : AuthConfig)
    (db : AuthDb) where
  abbrev pub of_flow_login : Response × AuthDb
  of_flow_login =
      flow_login around crypto source secrets request config provider (callback_parameters request)
        (cookie_parts (request.cookies (flow_cookie_name config))) db

  pub callback-flow_login :
      (canonical : Bool)
      → logs_in (callback around crypto source secrets provider canonical request (some config) db)
        ≡ true
      → callback around crypto source secrets provider canonical request (some config) db
        ≡ of_flow_login
  unfolding callback
  callback-flow_login canonical h = elim (Bool-cases config.enabled) [
    | inl on ↦ by_usable canonical (usable_config (some config)) (usable-of_enabled config on) h
    | inr off ↦
        absurd
          (by_unusable canonical (usable_config (some config)) (usable-of_disabled config off) h)
  ]
    where
      by_usable :
          (canonical : Bool) (used : Option AuthConfig)
          → used ≡ some config
          → logs_in
              (config_callback around crypto source secrets provider canonical request used db)
            ≡ true
          → config_callback around crypto source secrets provider canonical request used db
            ≡ of_flow_login
      by_usable true used e k = rw e refl
      by_usable false used e k = absurd (let g = rw e at k in ground arith)

      by_unusable :
          (canonical : Bool) (used : Option AuthConfig)
          → used ≡ none
          → logs_in
              (config_callback around crypto source secrets provider canonical request used db)
            ≡ true
          → ⊥
      by_unusable canonical used e k = let g = rw e at k in ground arith
