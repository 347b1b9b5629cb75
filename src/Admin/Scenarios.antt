-- ===== src/Admin/Scenarios.antt =====
-- Runs of the administrators' sessions on small databases.
pub mod Requests
use x_bray.Base.{
  ℕ, ◌+◌, ◌*◌, ◌≤◌, String, true, false, none, some, [], ◌∷◌, ◌≡◌, ◌≢◌, ◌↔◌, refl, arith,
  if◌then◌else◌, ◌==◌, is_none, find_where, update_where, count_where, any_where, select_where,
}
use x_bray.Base.Texts.{truncate}
use x_bray.Admin.Tables.{FlowRow, SessionRow, MembershipRow, AuthDb, Outcome, raised, database}
use x_bray.Admin.Flows.{second, hour, consume_flow}
use x_bray.Admin.Sessions.{exact, of_sqlite, EventSource, record_event, get_session}
use x_bray.Admin.Members.{uuid, revoke_admin}
use x_bray.Admin.Cleanup.{cleanup, Deleted}
use x_bray.Admin.Cleanup.Retention.{
  IsThinned, is_kept_flow, is_kept_session, is_kept_event, cleanup-keeps_live, cleanup-drains,
  dead_rows, repeated,
}
use x_bray.Admin.Cookies.{
  flow_cookie, cookie_parts, cookie_parts_iff, is_opaque, matches, count_dots, split_dot,
}
use x_bray.Admin.Commands.{creates_flow, updates_activity, run, in_order, never}
use x_bray.Admin.Commands.Revival.{reads_later, invalid_stays_invalid}
use x_bray.Admin.Commands.RateLimit.{recent_flows, recent_flows_are_limited}
use x_bray.Admin.Events.{second_anonymous_event_fails}
use x_bray.Admin.Routes.{
  AuthConfig, Crypto, Request, Surroundings, Material, require_admin, auth_error,
}
use x_bray.Admin.Routes.Session.{logout, activity}
use x_bray.Admin.Routes.Guards.{revoked_user_is_denied, forged_request_changes_nothing}
use x_bray.Admin.Routes.Logout.{logout-ends_session}
use x_bray.Admin.Routes.Callback.{
  Provider, user, CallbackSurroundings, SessionSecrets, callback, callback_of,
}
use x_bray.Admin.Routes.LoginSteps.{logs_in}
use x_bray.Admin.Routes.Replay.{callback-logs_in_once}

abbrev pub raw : String
raw = "aaaaaaaaaaaaaaaaaaaaaaaaaaaaaaaaaaaaaaaaaaa"

abbrev pub other_raw : String
other_raw = "bbbbbbbbbbbbbbbbbbbbbbbbbbbbbbbbbbbbbbbbbb-"

-- Hashes that keep their texts apart.
abbrev pub crypto : Crypto
crypto = record {
  session_hash = λ text. text;
  csrf = λ text. text;
  digest = λ text. text;
  decrypt = λ flow. some "verifier";
}

abbrev pub config : AuthConfig
config = record {
  enabled = true;
  app_origin = "https://x.example";
  callback_url = "https://x.example/api/auth/callback";
  flow_key_version = "v1";
  idle_seconds = 1800;
  absolute_seconds = 28_800;
  dev_http_cookie = false;
}

abbrev pub session_at : ℕ → SessionRow
session_at now = record {
  id = "s1";
  session_token_hash = raw;
  user_id = "u1";
  created_at = now;
  last_activity_at = now;
  idle_expires_at = now + 1800 * second;
  absolute_expires_at = now + 28_800 * second;
  revoked_at = none;
  csrf_token_hash = raw;
}

abbrev pub member : MembershipRow
member = record {
  user_id = "u1";
  granted_at = 0;
  granted_by = none;
  revoked_at = none;
  reason = "operator-approved";
}

abbrev flow_at : ℕ → FlowRow
flow_at now = record {
  id = "f1";
  flow_handle_hash = raw;
  state_hash = other_raw;
  browser_binding_hash = raw;
  verifier_ciphertext = [];
  nonce = [];
  key_version = "v1";
  callback_url = callback_of config other_raw;
  created_at = now;
  expires_at = now + 600 * second;
  consumed_at = none;
}

abbrev pub logged_in : AuthDb
logged_in = record {
  flows = flow_at 0 ∷ [];
  sessions = session_at 0 ∷ [];
  memberships = member ∷ [];
  events = [];
}

abbrev pub source : EventSource
source = record { postgres = true; fresh = "e1" }

abbrev pub request : Request
request = record {
  cookies = λ name. if name == "__Host-xbray_admin" then some raw else some (flow_cookie raw raw);
  origin = some "https://x.example";
  csrf_token = some raw;
  query = ("flow_state", other_raw) ∷ ("code", "c") ∷ [];
}

abbrev pub forged_request : Request
forged_request = record request { origin = some "https://evil.example" }

abbrev pub around : Surroundings
around = record {
  read_down = false;
  read_at = second;
  write_down = false;
  write_at = second;
  last_down = false;
  last_at = second;
  activity_clock = exact;
}

abbrev pub material : Material
material = record {
  raw = raw;
  csrf = raw;
  found = record { session = session_at 0; active_member = some "u1" };
}

-- Half an hour later the session is idle, and a signal of activity does not bring it back.
invalid_stays_invalid_example :
    get_session raw
      (1801 * second)
      (run ((1801 * second, updates_activity (of_sqlite true true) raw 1800) ∷ []) logged_in)
    ≡ none
unfolding get_session reads_later never find_where
invalid_stays_invalid_example =
    invalid_stays_invalid raw
      ((1801 * second, updates_activity (of_sqlite true true) raw 1800) ∷ []) (1800 * second)
      (1801 * second) logged_in refl refl refl

activity_before :
    is_none (
      get_session raw
        (1801 * second)
        (run ((1799 * second, updates_activity exact raw 1800) ∷ []) logged_in))
    ≡ false
unfolding get_session run find_where update_where
activity_before = refl

recent_flows_are_limited_example :
    recent_flows raw 10 (
      run
        ((
          10,
          creates_flow
              (record {
                flow_id = "f2";
                handle_hash = "h2";
                state_hash = "s2";
                binding_hash = raw;
                ciphertext = [];
                nonce = [];
                key_version = "v1";
                callback_url = "";
                expires_at = 20;
              })
              5,
        )
          ∷ [])
        logged_in)
    ≤ 5
unfolding in_order never recent_flows count_where
recent_flows_are_limited_example =
    recent_flows_are_limited raw 5 _ 10 10 logged_in refl refl (omega arith)

cookie_parts_iff_example :
    (cookie_parts (some (flow_cookie raw other_raw)) ≡ some (raw, other_raw)) ↔ (
      (flow_cookie raw other_raw ≡ flow_cookie raw other_raw)
      × (is_opaque raw ≡ true)
      × (is_opaque other_raw ≡ true))
cookie_parts_iff_example = cookie_parts_iff (flow_cookie raw other_raw) raw other_raw

abbrev cleaned : Outcome (Deleted × AuthDb)
cleaned = cleanup 1 (40 * 24 * hour) logged_in

abbrev after_cleanup : AuthDb
after_cleanup = record logged_in { flows = []; sessions = [] }

cleanup-keeps_live_example :
    IsThinned (is_kept_flow (40 * 24 * hour)) 1 1 logged_in.flows after_cleanup.flows
    × IsThinned (is_kept_session (40 * 24 * hour)) 1 1 logged_in.sessions after_cleanup.sessions
    × IsThinned (is_kept_event (40 * 24 * hour)) 1 0 logged_in.events after_cleanup.events
    × (get_session raw (40 * 24 * hour) after_cleanup ≡ get_session raw (40 * 24 * hour) logged_in)
    × ((consume_flow other_raw raw raw (40 * 24 * hour) after_cleanup).0
        ≡ (consume_flow other_raw raw raw (40 * 24 * hour) logged_in).0)
unfolding cleanup count_where
cleanup-keeps_live_example =
    cleanup-keeps_live 1 (40 * 24 * hour) logged_in after_cleanup
      (record { admin_oauth_flows = 1; admin_sessions = 1; admin_auth_events = 0 }) raw other_raw
      raw raw refl

cleanup-drains_example :
    dead_rows (40 * 24 * hour) (repeated 1 1 (40 * 24 * hour) logged_in)
    ≡ record { flows = 0; sessions = 0; events = 0 }
unfolding dead_rows count_where
cleanup-drains_example =
    cleanup-drains 1 1 (40 * 24 * hour) logged_in (omega arith) (omega arith) (omega arith)
      (omega arith) (omega arith)
