-- ===== src/Admin/Routes/LoginSteps.antt =====
-- The steps of a callback: which answers log in, on what grounds, and what becomes of the flows.
use x_bray.Base.{
  String, Bool, true, false, Option, none, some, ◌≡◌, refl, sym, ap, arith, ◌==◌, eq_iff,
}
use x_bray.Admin.Tables.{AuthDb, FlowRow}
use x_bray.Admin.Sessions.{EventSource, record_event, insert_event, establish_session}
use x_bray.Admin.Members.{is_admin}
use x_bray.Admin.Routes.Callback.{
  Provider, Identity, sdk_error, no_session, no_user, user, CallbackSurroundings, SessionSecrets,
  Verifier, refused, undecryptable, verifier, callback_of, safe_redirect, flow_verifier, decrypted,
  denied_login, established, member_login, identity_login, verified_login,
}
use x_bray.Admin.Routes.{
  AuthConfig, Crypto, session_cookie_name, Request, Response, CookieChange, keeps, sets, clears,
}

-- The answer sets a cookie, as only a successful login does.
abbrev pub sets_cookie : CookieChange → Bool
sets_cookie (sets name value max_age secure) = true
sets_cookie keeps = false
sets_cookie (clears name secure) = false

abbrev pub logs_in : Response × AuthDb → Bool
logs_in (response, db) = sets_cookie response.cookie

module _ (around : CallbackSurroundings) (crypto : Crypto) (source : EventSource)
    (secrets : SessionSecrets) (request : Request) (config : AuthConfig) where
  denied_login-fails :
      (user_id reason answer : String) (db : AuthDb)
      → logs_in (
          denied_login around crypto source secrets request config user_id reason
            (safe_redirect config answer)
            db)
        ≡ false
  unfolding record_event insert_event
  denied_login-fails user_id reason answer db = ground arith

  member_login-success :
      (user_id : String) (db : AuthDb)
      → logs_in (member_login around crypto source secrets request config user_id db) ≡ true
      → is_admin user_id db ≡ true
  member_login-success user_id db h =
      ground (arith, denied_login-fails user_id "membership_required" "not_authorized" db)

  denied_login-flows :
      (user_id reason answer : String) (db : AuthDb)
      → (denied_login around crypto source secrets request config user_id reason
          (safe_redirect config answer)
          db).1.flows
        ≡ db.flows
  unfolding record_event insert_event
  denied_login-flows user_id reason answer db = ground arith

  established-flows :
      (user_id : String) (previous : Option String) (db : AuthDb)
      → previous ≡ request.cookies (session_cookie_name config)
      → (established around crypto source secrets request config user_id db).1.flows ≡ db.flows
  unfolding establish_session insert_event
  established-flows user_id none db e = rw (sym e) (ground arith)
  established-flows user_id (some previous) db e = rw (sym e) (ground arith)

  member_login-flows :
      (user_id : String) (db : AuthDb)
      → (member_login around crypto source secrets request config user_id db).1.flows ≡ db.flows
  member_login-flows user_id db = ground (
    arith,
    denied_login-flows user_id "membership_required" "not_authorized" db,
    established-flows user_id (request.cookies (session_cookie_name config)) db refl,
  )

  identity_login-flows :
      (identity : Identity) (db : AuthDb)
      → (identity_login around crypto source secrets request config identity db).1.flows ≡ db.flows
  identity_login-flows sdk_error db = refl
  identity_login-flows no_session db = refl
  identity_login-flows no_user db = refl
  identity_login-flows (user user_id provider) db = ground (
    arith,
    member_login-flows user_id db,
    denied_login-flows user_id "provider_not_allowed" "login_failed" db,
  )

  -- The identity that logs in: a user of the allowed provider with an active membership.
  abbrev pub IsMemberIdentity : Identity → AuthDb → Type 0
  IsMemberIdentity identity db =
      (user_id : String) × (identity ≡ user user_id (some "google")) × (is_admin user_id db ≡ true)

  identity_login-success :
      (identity : Identity) (db : AuthDb)
      → logs_in (identity_login around crypto source secrets request config identity db) ≡ true
      → IsMemberIdentity identity db
  identity_login-success sdk_error db h = ground arith
  identity_login-success no_session db h = ground arith
  identity_login-success no_user db h = ground arith
  identity_login-success (user user_id none) db h =
      ground (arith, denied_login-fails user_id "provider_not_allowed" "login_failed" db)
  identity_login-success (user user_id (some provider)) db h =
      let shown : ((provider == "google") ≡ true) × (is_admin user_id db ≡ true) = ground (
        arith,
        denied_login-fails user_id "provider_not_allowed" "login_failed" db,
        member_login-success user_id db,
      ) in
      (
        user_id,
        ap (λ name. user user_id (some name)) ((eq_iff provider "google").0 shown.0),
        shown.1,
      )

  pub verified_login-success :
      (provider : Provider) (state code : String) (found : Verifier) (db : AuthDb)
      → logs_in
          (verified_login around crypto source secrets request config provider state code found db)
        ≡ true
      → (text : String) × (found ≡ verifier text)
        × IsMemberIdentity (provider.exchange code text (callback_of config state)) db
  verified_login-success provider state code refused db h = ground arith
  verified_login-success provider state code undecryptable db h = ground arith
  verified_login-success provider state code (verifier text) db h = (
    text,
    refl,
    identity_login-success (provider.exchange code text (callback_of config state)) db h,
  )

  pub verified_login-flows :
      (provider : Provider) (state code : String) (found : Verifier) (db : AuthDb)
      → (verified_login around crypto source secrets request config provider state code found
          db).1.flows
        ≡ db.flows
  verified_login-flows provider state code refused db = refl
  verified_login-flows provider state code undecryptable db = refl
  verified_login-flows provider state code (verifier text) db =
      identity_login-flows (provider.exchange code text (callback_of config state)) db

  decrypted-verifier :
      (plain : Option String) (text : String) → decrypted plain ≡ verifier text → plain ≡ some text
  decrypted-verifier none text h = ground arith
  decrypted-verifier (some plain) text h = ground arith

  -- The consumed flow belongs to this callback and decrypts to the verifier.
  pub record IsFlowOf (state text : String) (flow : FlowRow) : Type 0 where
    pub callback_url : flow.callback_url ≡ callback_of config state
    pub key_version : flow.key_version ≡ config.flow_key_version
    pub plain : crypto.decrypt flow ≡ some text

  pub flow_verifier-IsFlowOf :
      (state text : String) (found : Option FlowRow)
      → flow_verifier crypto config state found ≡ verifier text
      → (flow : FlowRow) × (found ≡ some flow) × IsFlowOf state text flow
  flow_verifier-IsFlowOf state text none h = ground arith
  flow_verifier-IsFlowOf state text (some flow) h = (flow, refl, parts)
    where
      parts : IsFlowOf state text flow
      parts = ground (
        arith,
        eq_iff flow.callback_url (callback_of config state),
        eq_iff flow.key_version config.flow_key_version,
        decrypted-verifier (crypto.decrypt flow) text,
      )
