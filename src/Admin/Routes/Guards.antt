-- ===== src/Admin/Routes/Guards.antt =====
-- Who is let through by the guards of the session routes.
use x_bray.Base.{
  ℕ, String, Bool, true, false, Option, none, some, List, ◌≡◌, ◌≢◌, refl, ap, subst, arith, ◌&&◌,
  not, ◌==◌, if◌then◌else◌, eq_iff,
}
use x_bray.Base.Texts.{is_ascii}
use x_bray.Admin.Tables.{AuthDb, Outcome, raised, returned}
use x_bray.Admin.Sessions.{EventSource, SessionRecord, get_session, revoke_session}
use x_bray.Admin.Members.{UuidText, uuid, revoke_admin}
use x_bray.Admin.Commands.{AuthCommand, run, never, grants_user}
use x_bray.Admin.Commands.Lockout.{revoked_user_has_no_access}
use x_bray.Admin.Routes.Session.{logout, activity}
use x_bray.Admin.Routes.{
  AuthConfig, Crypto, usable_config, session_cookie_name, Request, auth_error, Material,
  matching_csrf, material_of, session_material, Surroundings, admitted, member_access,
  material_access, config_access, require_admin, expected_origin, is_text, server_error,
  csrf_answer,
}

-- What an admitted request has shown.
pub record IsAdmitted (around : Surroundings) (crypto : Crypto) (loaded : Option AuthConfig)
    (config : AuthConfig) (request : Request) (db : AuthDb) (material : Material) : Type 0 where
  pub configured : loaded ≡ some config
  pub enabled : config.enabled ≡ true
  pub cookie : request.cookies (session_cookie_name config) ≡ some material.raw
  pub session :
      get_session (crypto.session_hash material.raw) around.read_at db ≡ some material.found
  pub csrf :
      (crypto.digest material.csrf ≡ material.found.session.csrf_token_hash)
      × (material.csrf ≡ crypto.csrf material.raw)
  pub member : material.found.active_member ≢ none

module _ (around : Surroundings) (crypto : Crypto) (request : Request) (db db' : AuthDb) where
  member_of_access :
      (config used : AuthConfig) (material shown : Material) (member : Option String)
      → member_access around crypto config shown member db ≡ (admitted used material, db')
      → (config ≡ used) × (shown ≡ material) × (db' ≡ db) × (member ≢ none)
  unfolding revoke_session
  member_of_access config used material shown none h = ground arith
  member_of_access config used material shown (some member) h = ground arith

  shown_of_matching :
      (raw : String) (found : Option SessionRecord) (material : Material)
      → matching_csrf crypto raw found ≡ some material
      → (material.raw ≡ raw)
        × (material.csrf ≡ crypto.csrf raw)
        × (found ≡ some material.found)
        × (crypto.digest material.csrf ≡ material.found.session.csrf_token_hash)
  shown_of_matching raw none material h = ground arith
  shown_of_matching raw (some found) material h =
      ground (arith, eq_iff (crypto.digest (crypto.csrf raw)) found.session.csrf_token_hash)

  shown_of_material :
      (cookie : Option String) (now : ℕ) (material : Material)
      → material_of around.read_down crypto cookie now db ≡ returned (some material)
      → (cookie ≡ some material.raw)
        × (material.csrf ≡ crypto.csrf material.raw)
        × (get_session (crypto.session_hash material.raw) now db ≡ some material.found)
        × (crypto.digest material.csrf ≡ material.found.session.csrf_token_hash)
  shown_of_material none now material h = ground arith
  shown_of_material (some raw) now material h =
      ground (arith, shown_of_matching raw (get_session (crypto.session_hash raw) now db) material)

  admitted_of_material :
      (config used : AuthConfig) (found : Outcome (Option Material)) (material : Material)
      → material_access around crypto config found db ≡ (admitted used material, db')
      → (config ≡ used)
        × (found ≡ returned (some material))
        × (db' ≡ db)
        × (material.found.active_member ≢ none)
  admitted_of_material config used (raised failure) material h = ground arith
  admitted_of_material config used (returned none) material h = ground arith
  admitted_of_material config used (returned (some shown)) material h =
      ground (arith, member_of_access config used material shown shown.found.active_member)

  admitted_of_config :
      (loaded : Option AuthConfig) (config : AuthConfig) (material : Material)
      → config_access around crypto request loaded db ≡ (admitted config material, db')
      → (loaded ≡ some config)
        × (session_material around.read_down crypto request config around.read_at db
            ≡ returned (some material))
        × (db' ≡ db)
        × (material.found.active_member ≢ none)
  admitted_of_config none config material h = ground arith
  admitted_of_config (some used) config material h = by_found (
      admitted_of_material used config
        (session_material around.read_down crypto request used around.read_at db) material h)
    where
      by_found :
          (used ≡ config)
            × (session_material around.read_down crypto request used around.read_at db
                ≡ returned (some material))
            × (db' ≡ db)
            × (material.found.active_member ≢ none)
          → (some used ≡ some config)
            × (session_material around.read_down crypto request config around.read_at db
                ≡ returned (some material))
            × (db' ≡ db)
            × (material.found.active_member ≢ none)
      by_found (same, shown, kept, member) = (
        ap some same,
        subst
            (λ c.
              session_material around.read_down crypto request c around.read_at db
              ≡ returned (some material))
            same shown,
        kept,
        member,
      )

  enabled_of_usable :
      (loaded : Option AuthConfig) (config : AuthConfig)
      → usable_config loaded ≡ some config
      → (loaded ≡ some config) × (config.enabled ≡ true)
  enabled_of_usable none config h = ground arith
  enabled_of_usable (some used) config h = ground arith

-- `_require_admin` lets a request through only when the configuration is enabled, the session cookie's
-- token is that of a session found at that instant, the CSRF token derived from the cookie is the one
-- stored with the session, and the session's user has an active membership; and it then changes
-- nothing.
pub require_admin-admits :
    (around : Surroundings) (crypto : Crypto) (loaded : Option AuthConfig) (request : Request)
    (db db' : AuthDb) (config : AuthConfig) (material : Material)
    → require_admin around crypto loaded request db ≡ (admitted config material, db')
    → IsAdmitted around crypto loaded config request db material × (db' ≡ db)
unfolding require_admin session_material
require_admin-admits around crypto loaded request db db' config material h =
    let shown =
      admitted_of_config around crypto request db db' (usable_config loaded) config material h in
    let parts =
      shown_of_material around crypto request db db' (request.cookies (session_cookie_name config))
        around.read_at material shown.1 in
    (
      record {
        configured = (enabled_of_usable around crypto request db db' loaded config shown.0).0;
        enabled = (enabled_of_usable around crypto request db db' loaded config shown.0).1;
        cookie = parts.0;
        session = parts.2;
        csrf = (parts.3, parts.1);
        member = shown.3;
      },
      shown.2,
    )

-- After `revoke_admin` has withdrawn a user's membership, in any history without a new grant to that
-- user, `_require_admin` lets no request through as that user.
pub revoked_user_is_denied :
    (source : EventSource) (user_id text : String) (granted_by : UuidText) (reason : String)
    (now : ℕ) (db db' db'' : AuthDb) (history : List (ℕ × AuthCommand)) (around : Surroundings)
    (crypto : Crypto) (loaded : Option AuthConfig) (request : Request) (config : AuthConfig)
    (material : Material)
    → revoke_admin source (uuid text user_id) granted_by reason now db ≡ returned (true, db')
    → never (grants_user user_id) history ≡ true
    → require_admin around crypto loaded request (run history db')
      ≡ (admitted config material, db'')
    → material.found.session.user_id ≢ user_id
revoked_user_is_denied source user_id text granted_by reason now db db' db'' history around crypto
      loaded request config material h n r same =
    let shown =
      (require_admin-admits around crypto loaded request (run history db') db'' config material
        r).0 in
    shown.member (
      revoked_user_has_no_access user_id source text granted_by reason now db db' history
        (crypto.session_hash material.raw) around.read_at material.found h n shown.session same)

-- The supplied token makes the comparison raise.
abbrev pub breaks_comparison : Option String → Bool
breaks_comparison none = false
breaks_comparison (some supplied) = not (is_ascii supplied)

-- The origin and the token are those of the session's page.
abbrev pub is_from_page : Request → AuthConfig → String → Bool
is_from_page request config csrf =
    is_text request.origin config.app_origin && is_text request.csrf_token csrf

forged_answer_lem :
    (origin csrf_token : Option String) (expected : Bool) (csrf : String)
    → (expected && is_text csrf_token csrf) ≡ false
    → (if not expected
        then some (auth_error 403 "request_forbidden")
        else csrf_answer (elim csrf_token as (λ _. Option Bool) [
          | none ↦ some false
          | some supplied ↦ if is_ascii supplied then some (supplied == csrf) else none
        ]))
      ≡ some (
          if expected && breaks_comparison csrf_token
          then server_error
          else auth_error 403 "request_forbidden")
forged_answer_lem origin none true csrf h = refl
forged_answer_lem origin none false csrf h = refl
forged_answer_lem origin (some supplied) true csrf h = ground (arith, h)
forged_answer_lem origin (some supplied) false csrf h = refl

-- A request that `_require_admin` lets through but whose origin or CSRF token is not the expected one
-- changes nothing by `logout` or `activity`, and gets 403 from them, or 500 where its origin is the
-- expected one and its token is not ASCII.
pub forged_request_changes_nothing :
    (around : Surroundings) (crypto : Crypto) (source : EventSource) (loaded : Option AuthConfig)
    (request : Request) (db db' : AuthDb) (config : AuthConfig) (material : Material)
    → require_admin around crypto loaded request db ≡ (admitted config material, db')
    → is_from_page request config material.csrf ≡ false
    → let answer =
        if expected_origin request config && breaks_comparison request.csrf_token
        then server_error
        else auth_error 403 "request_forbidden" in
      (logout around crypto source loaded request db ≡ (answer, db))
      × (activity around crypto loaded request db ≡ (answer, db))
unfolding logout activity require_admin
forged_request_changes_nothing around crypto source loaded request db db' config material h forged =
    let kept = (require_admin-admits around crypto loaded request db db' config material h).1 in
    let refused =
      forged_answer_lem request.origin request.csrf_token (expected_origin request config)
        material.csrf forged in
    (rw h (rw refused (rw kept refl)), rw h (rw refused (rw kept refl)))
