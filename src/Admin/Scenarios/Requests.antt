-- ===== src/Admin/Scenarios/Requests.antt =====
-- -- Requests and the withdrawal of a membership, on the same database.
use x_bray.Base.{
  ◌*◌, true, false, none, some, [], ◌∷◌, ◌≡◌, ◌≢◌, refl, find_where, update_where, count_where,
  any_where, select_where,
}
use x_bray.Base.Texts.{is_ascii, truncate}
use x_bray.Admin.Tables.{AuthDb, raised, database}
use x_bray.Admin.Flows.{second}
use x_bray.Admin.Sessions.{exact, record_event, get_session}
use x_bray.Admin.Members.{uuid, revoke_admin}
use x_bray.Admin.Cookies.{flow_cookie, matches, count_dots, split_dot}
use x_bray.Admin.Commands.{updates_activity, run, in_order, never}
use x_bray.Admin.Events.{second_anonymous_event_fails}
use x_bray.Admin.Routes.{Request, Material, require_admin, auth_error}
use x_bray.Admin.Routes.Session.{logout, activity}
use x_bray.Admin.Routes.Guards.{revoked_user_is_denied, forged_request_changes_nothing}
use x_bray.Admin.Routes.Logout.{logout-ends_session}
use x_bray.Admin.Routes.Callback.{Provider, user, CallbackSurroundings, SessionSecrets, callback}
use x_bray.Admin.Routes.LoginSteps.{logs_in}
use x_bray.Admin.Routes.Replay.{callback-logs_in_once}
use x_bray.Admin.Scenarios.{
  raw, other_raw, crypto, config, session_at, member, logged_in, source, request, forged_request,
  around, material,
}

abbrev revoked : AuthDb
revoked = record logged_in {
  sessions = record (session_at 0) { revoked_at = some second } ∷ [];
  memberships =
      record member {
        revoked_at = some second;
        granted_by = some "u0";
        reason = "operator-revoked";
      }
      ∷ [];
  events =
      record {
        id = "e1";
        user_id = some "u1";
        event = "membership_revoked";
        created_at = second;
        reason = "operator-revoked";
      }
      ∷ [];
}

-- Another member is let through after the withdrawal.
abbrev two_members : AuthDb
two_members = record logged_in {
  sessions =
      session_at 0
      ∷ record (session_at 0) {
        id = "s2";
        user_id = "u2";
        session_token_hash = other_raw;
        csrf_token_hash = other_raw;
      }
      ∷ [];
  memberships = member ∷ record member { user_id = "u2" } ∷ [];
}

abbrev one_left : AuthDb
one_left = record revoked {
  sessions =
      record (session_at 0) { revoked_at = some second }
      ∷ record (session_at 0) {
        id = "s2";
        user_id = "u2";
        session_token_hash = other_raw;
        csrf_token_hash = other_raw;
      }
      ∷ [];
  memberships =
      record member {
        revoked_at = some second;
        granted_by = some "u0";
        reason = "operator-revoked";
      }
      ∷ record member { user_id = "u2" }
      ∷ [];
}

abbrev others_request : Request
others_request = record request { cookies = λ name. some other_raw }

abbrev others_material : Material
others_material = record {
  raw = other_raw;
  csrf = other_raw;
  found = record {
    session = record (session_at 0) {
      id = "s2";
      user_id = "u2";
      session_token_hash = other_raw;
      csrf_token_hash = other_raw;
    };
    active_member = some "u2";
  };
}

revoked_user_is_denied_example : others_material.found.session.user_id ≢ "u1"
unfolding revoke_admin require_admin never run find_where update_where count_where any_where
    truncate matches
revoked_user_is_denied_example =
    revoked_user_is_denied source "u1" "u1" (uuid "u0" "u0") "operator-revoked" second two_members
      one_left one_left [] around crypto (some config) others_request config others_material refl
      refl refl

forged_request_changes_nothing_example :
    (logout around crypto source (some config) forged_request logged_in
      ≡ (auth_error 403 "request_forbidden", logged_in))
    × (activity around crypto (some config) forged_request logged_in
        ≡ (auth_error 403 "request_forbidden", logged_in))
unfolding require_admin find_where matches is_ascii
forged_request_changes_nothing_example =
    forged_request_changes_nothing around crypto source (some config) forged_request logged_in
      logged_in config material refl refl

-- A token that is not ASCII breaks the comparison.
broken_token_gets_500 :
    (logout around crypto source
      (some config)
      (record request { csrf_token = some "é" })
      logged_in).0.status
    ≡ 500
unfolding logout require_admin find_where matches is_ascii
broken_token_gets_500 = refl

logout-ends_session_example :
    get_session raw (2 * second) (
      run
        ((2 * second, updates_activity exact raw 1800) ∷ [])
        (logout around crypto source (some config) request logged_in).1)
    ≡ none
unfolding logout in_order never find_where any_where update_where matches truncate is_ascii
logout-ends_session_example =
    logout-ends_session around crypto source request logged_in config raw
      ((2 * second, updates_activity exact raw 1800) ∷ []) (2 * second) refl refl refl refl

abbrev provider : Provider
provider = record {
  sign_in = λ url. some (url, some "verifier");
  exchange = λ code text url. user "u1" (some "google");
}

abbrev callback_around : CallbackSurroundings
callback_around = record {
  consume_down = false;
  consume_at = second;
  member_down = false;
  event_down = false;
  event_at = second;
  establish_down = false;
  establish_at = second;
}

abbrev secrets : SessionSecrets
secrets = record { raw = other_raw; session_id = "s9" }

callback-logs_in_once_example :
    logs_in (
      callback callback_around crypto
        (record source { fresh = "e2" })
        secrets
        provider
        true
        request
        (some config)
        (run []
          (callback callback_around crypto source secrets provider true request
            (some config)
            logged_in).1))
    ≡ false
unfolding callback flow_cookie in_order never find_where any_where select_where update_where matches
    truncate count_dots split_dot
callback-logs_in_once_example =
    callback-logs_in_once callback_around callback_around crypto source
      (record source { fresh = "e2" }) secrets secrets provider provider true true request config
      logged_in other_raw "c" [] refl refl refl refl

second_anonymous_event_fails_example :
    record_event source none "again" "" 2 (record logged_in {
      events =
          record {
            id = "00000000-0000-0000-0000-000000000000";
            user_id = none;
            event = "once";
            created_at = 1;
            reason = "";
          }
          ∷ [];
    })
    ≡ raised database
unfolding record_event any_where truncate
second_anonymous_event_fails_example =
    second_anonymous_event_fails source source "once" "again" "" "" 1 2 logged_in _ refl refl refl
